-- ===== src/Process/Info/Tasklist/Table.antt =====
-- The user's name in a table that tasklist prints.
use masche.Prelude.{
  ℕ, zero, suc, ◌+◌, ◌-◌, ◌≤◌, ◌≡◌, ◌≢◌, refl, ap, ◌∙◌, true, false, List, [], ◌∷◌, ◌++◌, Bytes,
  codes, bytes_eq, leb, ◌==◌, All, arith, length, length-append, take, drop, replicate,
  length-replicate, sym,
}
use masche.Go.{done}
use masche.Go.Strings.{Lacks, split, split-append}
use masche.Process.Info.Wmic.{slice}
use masche.Process.Info.Wmic.Slices.{drop-further, length-drop}
use masche.Process.Info.Tasklist.{total_length, tokens_loop}

-- A column in front of the users: its heading, of at least one byte, and the value under it.
pub record Column : Type 0 where
  pub first : ℕ
  pub others : Bytes
  pub cell : Bytes

-- The value is as wide as the heading, which does not begin like the user's.
pub record IsColumn (c : Column) : Type 0 where
  pub other_name : c.first ≢ b'U'
  pub same_width : length c.cell ≡ suc (length c.others)

unfoldable pub headings : List Column → Bytes → Bytes
headings [] rest = rest
headings (c ∷ cs) rest = c.first ∷ (c.others ++ 32 ∷ headings cs rest)

unfoldable pub separators : List Column → Bytes → Bytes
separators [] rest = rest
separators (c ∷ cs) rest = replicate (suc (length c.others)) b'=' ++ 32 ∷ separators cs rest

unfoldable pub cells : List Column → Bytes → Bytes
cells [] rest = rest
cells (c ∷ cs) rest = c.cell ++ 32 ∷ cells cs rest

-- The columns with the spaces behind them.
abbrev pub width : List Column → ℕ
width [] = 0
width (c ∷ cs) = suc (suc (length c.others)) + width cs

abbrev pub tokens : List Column → List Bytes → List Bytes
tokens [] rest = rest
tokens (c ∷ cs) rest = replicate (suc (length c.others)) b'=' ∷ tokens cs rest

Lacks-separator : (n : ℕ) → Lacks 32 (replicate n b'=')
Lacks-separator zero = tt
Lacks-separator (suc n) = (omega arith, Lacks-separator n)

pub split-separators :
    (cs : List Column) (rest : Bytes) → split (separators cs rest) 32 ≡ tokens cs (split rest 32)
unfolding separators
split-separators [] rest = refl
split-separators (c ∷ cs) rest =
    let w = suc (length c.others) in
    split-append (replicate w b'=') (separators cs rest) 32 (Lacks-separator w)
    ∙ ap (λ t. replicate w b'=' ∷ t) (split-separators cs rest)

total_length-append :
    (ts : List Bytes) (t : Bytes) → total_length (ts ++ t ∷ []) ≡ total_length ts + length t
unfolding total_length
total_length-append [] t = omega arith
total_length-append (s ∷ ts) t = omega (arith, total_length-append ts t)

length-headings :
    (cs : List Column) (rest : Bytes) → length (headings cs rest) ≡ width cs + length rest
unfolding headings
length-headings [] rest = omega arith
length-headings (c ∷ cs) rest =
    omega (arith, length-append c.others (32 ∷ headings cs rest), length-headings cs rest)

pub cells-drop :
    (cs : List Column) (rest : Bytes) → All IsColumn cs → drop (width cs) (cells cs rest) ≡ rest
unfolding cells
cells-drop [] rest h = refl
cells-drop (c ∷ cs) rest (h, hs) =
    let blank : Bytes = 32 ∷ [] in
    let front = drop-further c.cell (32 ∷ cells cs rest) 0 (cells (c ∷ cs) rest) refl in
    let space =
      drop-further blank (cells cs rest) (0 + length c.cell) (cells (c ∷ cs) rest) front in
    let here = 0 + length c.cell + length blank in
    let others = drop-width here (width cs) (cells (c ∷ cs) rest) (cells cs rest) space in
    let same : here + width cs ≡ width (c ∷ cs) = omega (arith, h.same_width) in
    rw same at others ∙ cells-drop cs rest hs
  where
    drop-nil : (n : ℕ) → drop {A = ℕ} n [] ≡ []
    drop-nil zero = refl
    drop-nil (suc n) = refl

    drop-width :
        (a b : ℕ) (line rest : Bytes) → drop a line ≡ rest → drop (a + b) line ≡ drop b rest
    drop-width zero b line rest e = let z : zero + b ≡ b = omega arith in rw (z, e) refl
    drop-width (suc a) b [] rest e =
        let next : suc a + b ≡ suc (a + b) = omega arith in rw (next, ← e) (sym (drop-nil b))
    drop-width (suc a) b (x ∷ line) rest e =
        let next : suc a + b ≡ suc (a + b) = omega arith in rw next (drop-width a b line rest e)

slice-nine :
    (line rest : Bytes) (at : ℕ)
    → drop at line ≡ rest
    → 9 ≤ length rest
    → slice line at (at + 9) ≡ done (take 9 rest)
unfolding slice
slice-nine line rest at e p =
    let long = length-drop rest at line e (omega (arith, p)) in
    let same : at + 9 - at ≡ 9 = omega arith in
    let low_high : leb at (at + 9) ≡ true = ground arith in
    let in_line : leb (at + 9) (length line) ≡ true = ground (arith, long, p) in
    rw (low_high, in_line, same, e) refl

abbrev pub user_heading : Bytes → Bytes
user_heading more = codes "User Name" ++ more

-- The loop over the tokens stops at the column of the users.
pub tokens_loop-user :
    (cs : List Column)
    → All IsColumn cs
    → (line more user : Bytes) (rest preceeding : List Bytes) (position : ℕ)
    → drop (length preceeding + total_length preceeding) line ≡ headings cs (user_heading more)
    → tokens_loop line preceeding position (tokens cs (user ∷ rest))
      ≡ done (length preceeding + total_length preceeding + width cs, user)
unfolding tokens_loop headings bytes_eq
tokens_loop-user [] h line more user rest preceeding position e =
    let here = length preceeding + total_length preceeding in
    let text = slice-nine line (user_heading more) here e (omega arith) in
    let at : here ≡ here + 0 = omega arith in rw (text) (ap (λ n. done (n, user)) at)
tokens_loop-user (c ∷ cs) (h, hs) line more user rest preceeding position e =
    let here = length preceeding + total_length preceeding in
    let token : Bytes = replicate (suc (length c.others)) b'=' in
    let blank : Bytes = 32 ∷ [] in
    let all = headings (c ∷ cs) (user_heading more) in
    let text =
      slice-nine line all here e (omega (arith, length-headings (c ∷ cs) (user_heading more))) in
    let front =
      drop-further (c.first ∷ c.others) (32 ∷ headings cs (user_heading more)) here line e in
    let space =
      drop-further blank (headings cs (user_heading more)) (here + length (c.first ∷ c.others)) line
        front in
    let next : here + length (c.first ∷ c.others) + length blank
        ≡ length (preceeding ++ token ∷ []) + total_length (preceeding ++ token ∷ []) =
      omega (
        arith,
        length-append preceeding (token ∷ []),
        total_length-append preceeding token,
        length-replicate {A = ℕ} (length c.others) b'=',
      ) in
    let found =
      tokens_loop-user cs hs line more user rest (preceeding ++ token ∷ []) here
        (rw next at space) in
    let ends : length (preceeding ++ token ∷ [])
          + total_length (preceeding ++ token ∷ [])
          + width cs
        ≡ here + width (c ∷ cs) =
      omega (arith, next) in
    let other : (c.first == b'U') ≡ false = ground (arith, h.other_name) in
    rw (text, other) (found ∙ ap (λ n. done (n, user)) ends)

-- ===== src/Process/Info/Wmic/Slices.antt =====
-- Where `findHeading` finds a heading, and what a slice of a line is.
use masche.Prelude.{
  ℕ, zero, suc, ◌+◌, ◌-◌, ◌<◌, ◌≡◌, refl, ap, true, [], ◌∷◌, ◌++◌, some, Bytes, bytes_eq,
  bytes_eq_refl, leb, length, length-append, take, take-length, drop, drop-length, arith,
  append-nil,
}
use masche.Go.{done}
use masche.Go.Strings.{Lacks}
use masche.Process.Info.Wmic.{heading_loop, find_heading, slice}

module _ (x rest : Bytes) where
  pub drop-further :
      (at : ℕ) (line : Bytes) → drop at line ≡ x ++ rest → drop (at + length x) line ≡ rest
  drop-further zero line h =
      let e : zero + length x ≡ length x = omega arith in rw (e, h) (drop-length x rest)
  drop-further (suc at) [] h =
      let e : suc at + length x ≡ suc (at + length x) = omega arith in rw e (nothing x h)
    where
      nothing : (x : Bytes) → [] ≡ x ++ rest → [] ≡ rest
      nothing [] h = h
      nothing (b ∷ x) h = absurd (cc)
  drop-further (suc at) (b ∷ line) h =
      let e : suc at + length x ≡ suc (at + length x) = omega arith in rw e (drop-further at line h)

-- Behind a part of known width.
pub drop-part :
    (line x rest : Bytes) (at next : ℕ)
    → drop at line ≡ x ++ rest
    → next ≡ at + length x
    → drop next line ≡ rest
drop-part line x rest at next h e = rw e (drop-further x rest at line h)

pub length-drop :
    (x : Bytes) (at : ℕ) (line : Bytes)
    → drop at line ≡ x
    → 0 < length x
    → length line ≡ at + length x
length-drop x zero line h p = rw h (omega arith)
length-drop [] (suc at) [] h p = absurd (omega (arith, p))
length-drop (y ∷ x) (suc at) [] h p = absurd (cc)
length-drop x (suc at) (b ∷ line) h p = omega (arith, length-drop x at line h p)

-- A heading is found behind a gap that lacks its first letter.
module _ (line : Bytes) (c : ℕ) (t post : Bytes) where
  abbrev target : Bytes
  target = c ∷ t

  heading_loop-gap :
      (gap : Bytes) (rounds at : ℕ)
      → Lacks c gap
      → drop at line ≡ gap ++ (target ++ post)
      → length gap < rounds
      → heading_loop line target rounds at ≡ some (at + length gap, at + length gap + length target)
  unfolding heading_loop bytes_eq
  heading_loop-gap gap zero at h e p = absurd (omega arith)
  heading_loop-gap [] (suc rounds) at h e p =
      let long = length-drop (target ++ post) at line e (omega arith) in
      let same = rw (take-length target post) at (ap (take (length target)) e) in
      ground (arith, long, length-append target post, same, bytes_eq_refl t)
  heading_loop-gap (g ∷ gap) (suc rounds) at (ne, h) e p =
      let long = length-drop ((g ∷ gap) ++ (target ++ post)) at line e (omega arith) in
      let more =
        heading_loop-gap gap rounds (at + 1) h
          (drop-further (g ∷ []) (gap ++ (target ++ post)) at line e) (omega arith) in
      ground
        (arith, long, length-append gap (target ++ post), length-append target post, e, ne, more)

  pub find_heading-gap :
      (gap : Bytes) (start : ℕ)
      → Lacks c gap
      → drop start line ≡ gap ++ (target ++ post)
      → find_heading line target start
        ≡ some (start + length gap, start + length gap + length target)
  unfolding find_heading
  find_heading-gap gap start h e =
      let long =
        length-drop (gap ++ (target ++ post)) start line e
          (omega (arith, length-append gap (target ++ post))) in
      heading_loop-gap gap (length line - start) start h e
        (omega (arith, long, length-append gap (target ++ post)))

pub find_heading-at :
    (line : Bytes) (c : ℕ) (t post gap : Bytes) (start at end : ℕ)
    → Lacks c gap
    → drop start line ≡ gap ++ ((c ∷ t) ++ post)
    → at ≡ start + length gap
    → end ≡ at + length (c ∷ t)
    → find_heading line (c ∷ t) start ≡ some (at, end)
find_heading-at line c t post gap start at end h e at_start at_end =
    rw (at_end, at_start) (find_heading-gap line c t post gap start h e)

pub slice-cell :
    (line cell rest : Bytes) (low high : ℕ)
    → drop low line ≡ cell ++ rest
    → 0 < length cell
    → high ≡ low + length cell
    → slice line low high ≡ done cell
unfolding slice
slice-cell line cell rest low high e p h =
    let long = length-drop (cell ++ rest) low line e (omega (arith, length-append cell rest)) in
    let same : high - low ≡ length cell = omega arith in
    let low_high : leb low high ≡ true = ground arith in
    let in_line : leb high (length line) ≡ true = ground (arith, long, length-append cell rest) in
    rw (low_high, in_line, same, e, take-length cell rest) refl

pub slice-rest :
    (line cell : Bytes) (low : ℕ)
    → drop low line ≡ cell
    → length line ≡ low + length cell
    → slice line low (length line) ≡ done cell
unfolding slice
slice-rest line cell low e long =
    let same : length line - low ≡ length cell = omega arith in
    let low_high : leb low (length line) ≡ true = ground arith in
    let in_line : leb (length line) (length line) ≡ true = ground arith in
    let whole = take-length cell [] in
    rw (low_high, in_line, same, e) (ap done (rw (append-nil cell) at whole))

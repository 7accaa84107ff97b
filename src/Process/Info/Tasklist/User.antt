-- ===== src/Process/Info/Tasklist/User.antt =====
-- The user's name under its heading in the table that tasklist prints.
use masche.Prelude.{
  ℕ, zero, suc, ◌+◌, ◌≡◌, refl, ap, ◌∙◌, Bool-cases, true, false, List, [], ◌∷◌, ◌++◌, Bytes, codes,
  leb, ◌==◌, bytes_eq_refl, take-length, All, arith, length, replicate, length-replicate, inl, inr,
}
use masche.Go.{done}
use masche.Go.Strings.{Lacks, split, split-append, split-Lacks}
use masche.Go.Strings.Space.{
  space_width, trim_space, trim_end, is_plain, is_lead, is_space, skip_space-none, width-blanks,
  trim_end-replicate, trim_end-plain,
}
use masche.Go.Lines.{newline}
use masche.Process.Info.Wmic.Slices.{slice-cell}
use masche.Process.Info.Tasklist.{
  Printed, is_heading, printed_at, lines_loop, total_length, last_token, tasklist_user,
}
use masche.Process.Info.Tasklist.Table.{
  Column, IsColumn, headings, separators, cells, width, tokens, split-separators, cells-drop,
  user_heading, tokens_loop-user,
}

-- The value under the users' heading: a domain, a backslash, the user and blanks.
pub record UserCell : Type 0 where
  pub first : ℕ
  pub domain : Bytes
  pub user : Bytes
  pub blanks : ℕ

unfoldable pub user_cell : UserCell → Bytes
user_cell u = (u.first ∷ (u.domain ++ b'\\' ∷ u.user)) ++ replicate u.blanks 32

-- The domain does not begin with a blank, and the user does not end with one.
pub record IsUserCell (u : UserCell) : Type 0 where
  pub no_space : space_width (u.first ∷ (u.domain ++ b'\\' ∷ u.user)) ≡ 0
  pub one_name : Lacks b'\\' u.user
  pub no_blank : trim_end u.user ≡ u.user

trim_space-user_cell :
    (u : UserCell)
    → IsUserCell u
    → trim_space (user_cell u) ≡ u.first ∷ (u.domain ++ b'\\' ∷ u.user)
unfolding trim_space user_cell
trim_space-user_cell u h =
    let body = u.domain ++ b'\\' ∷ u.user in
    let front =
      skip_space-none u.first (body ++ replicate u.blanks 32)
        (width-blanks u.first u.blanks body ∙ h.no_space) in
    rw front (
      trim_end-replicate (u.first ∷ body) u.blanks
      ∙ trim_end-plain (u.first ∷ u.domain) u.user b'\\' (unfold is_plain is_lead is_space in refl)
          h.no_blank)

-- What stands behind the last separator of a text.
last_token-split :
    (x y : Bytes) (c : ℕ)
    → Lacks c y
    → (f : Bytes) × (g : Bytes) × (r : List Bytes) × (split (x ++ c ∷ y) c ≡ f ∷ g ∷ r)
      × (last_token (g ∷ r) ≡ done y)
unfolding split last_token
last_token-split [] y c h = ([], y, [], ground (arith, split-Lacks y c h), refl)
last_token-split (b ∷ x) y c h =
    let (f, g, r, e, l) = last_token-split x y c h in
    elim (Bool-cases (b == c)) [
      | inl q ↦ ([], f, g ∷ r, ground (arith, e, q), l)
      | inr q ↦ (b ∷ f, g, r, ground (arith, e, q), l)
    ]

last_token-user : (x y : Bytes) (c : ℕ) → Lacks c y → last_token (split (x ++ c ∷ y) c) ≡ done y
unfolding last_token
last_token-user x y c h = let (f, g, r, e, l) = last_token-split x y c h in rw e l

-- Lines in front of a text.
unfoldable pub unlines : List Bytes → Bytes → Bytes
unlines [] rest = rest
unlines (l ∷ ls) rest = l ++ newline ∷ unlines ls rest

-- The output: lines in front, the columns in front of the user's, and what is printed behind those.
pub record Table : Type 0 where
  pub before : List Bytes
  pub columns : List Column
  pub user : UserCell
  pub more_headings : Bytes
  pub more_separators : Bytes
  pub more_cells : Bytes
  pub rest : Bytes

unfoldable pub top_line : Table → Bytes
top_line t = headings t.columns (user_heading t.more_headings)

unfoldable pub bar_line : Table → Bytes
bar_line t =
    separators t.columns (replicate (length (user_cell t.user)) b'=' ++ 32 ∷ t.more_separators)

unfoldable pub value_line : Table → Bytes
value_line t = cells t.columns (user_cell t.user ++ t.more_cells)

unfoldable pub table_text : Table → Bytes
table_text t =
    unlines t.before
      (top_line t ++ newline ∷ (bar_line t ++ newline ∷ (value_line t ++ newline ∷ t.rest)))

-- The first line that begins with the name of the first column is the line of headings.
pub record IsTable (t : Table) : Type 0 where
  pub lines_before : All (λ l. Lacks newline l × (is_heading l ≡ false)) t.before
  pub each_column : All IsColumn t.columns
  pub user_column : IsUserCell t.user
  pub image_name : (x : Bytes) × (top_line t ≡ codes "Image Name" ++ x)
  pub heading_one : Lacks newline (top_line t)
  pub separator_one : Lacks newline (bar_line t)
  pub process_one : Lacks newline (value_line t)

is_heading-image : (x : Bytes) → is_heading (codes "Image Name" ++ x) ≡ true
unfolding is_heading
is_heading-image x =
    let long : leb 10 (length (codes "Image Name" ++ x)) ≡ true = ground arith in
    rw (long, take-length (codes "Image Name") x) (bytes_eq_refl (codes "Image Name"))

lines_loop-unlines :
    (ls : List Bytes) (rest : Bytes)
    → All (λ l. Lacks newline l × (is_heading l ≡ false)) ls
    → lines_loop (split (unlines ls rest) newline) ≡ lines_loop (split rest newline)
unfolding unlines lines_loop
lines_loop-unlines [] rest h = refl
lines_loop-unlines (l ∷ ls) rest ((h, k), hs) =
    rw (split-append l (unlines ls rest) newline h, lines_loop, k) (lines_loop-unlines ls rest hs)

printed : Table → Printed
printed t = record {
  heading_line = top_line t;
  process_line = value_line t;
  separator_line_tokens = split (bar_line t) b' ';
}

table_text-printed :
    (t : Table) → IsTable t → lines_loop (split (table_text t) newline) ≡ done (printed t)
unfolding table_text printed lines_loop printed_at
table_text-printed t h =
    let (x, image) = h.image_name in
    let rest3 = value_line t ++ newline ∷ t.rest in
    let rest2 = bar_line t ++ newline ∷ rest3 in
    let heads : is_heading (top_line t) ≡ true = rw image (is_heading-image x) in
    let lines = lines_loop-unlines t.before (top_line t ++ newline ∷ rest2) h.lines_before in
    lines
    ∙ rw
        (
          split-append (top_line t) rest2 newline h.heading_one,
          lines_loop,
          heads,
          split-append (bar_line t) rest3 newline h.separator_one,
          split-append (value_line t) t.rest newline h.process_one,
        )
        refl

Lacks-line : (n : ℕ) → Lacks 32 (replicate n b'=')
Lacks-line zero = tt
Lacks-line (suc n) = (omega arith, Lacks-line n)

-- From such an output the user is read.
pub tasklist_user_lem : (t : Table) → IsTable t → tasklist_user (table_text t) ≡ done t.user.user
unfolding tasklist_user printed
tasklist_user_lem t h =
    let u = user_cell t.user in
    let bar : Bytes = replicate (length u) b'=' in
    let in_tokens : split (bar_line t) 32 ≡ tokens t.columns (bar ∷ split t.more_separators 32) =
      unfold bar_line in
      split-separators t.columns (bar ++ 32 ∷ t.more_separators)
      ∙ ap (tokens t.columns) (split-append bar t.more_separators 32 (Lacks-line (length u))) in
    let found =
      tokens_loop-user t.columns h.each_column (top_line t) t.more_headings bar
        (split t.more_separators 32) [] 0 (unfold top_line in unfold total_length in refl) in
    let at : length {A = Bytes} [] + total_length [] + width t.columns ≡ width t.columns =
      unfold total_length in omega arith in
    let behind = cells-drop t.columns (u ++ t.more_cells) h.each_column in
    let wide : length bar ≡ length u = length-replicate (length u) b'=' in
    let cell =
      slice-cell (value_line t) u t.more_cells (width t.columns) (width t.columns + length bar)
        (unfold value_line in behind) (unfold user_cell in omega arith) (omega (arith, wide)) in
    rw
      (
        table_text-printed t h,
        in_tokens,
        found,
        at,
        cell,
        trim_space-user_cell t.user h.user_column,
      )
      (last_token-user (t.user.first ∷ t.user.domain) t.user.user b'\\' h.user_column.one_name)

-- ===== src/Process/Info/Tasklist.antt =====
-- process/process_info_windows.go: what tasklist prints of a process, a line of headings, a line of
-- `=` under each and a line with the values.
pub mod Table
pub mod User
use masche.Prelude.{
  ℕ, ◌+◌, Bool, true, false, ◌&&◌, List, [], ◌∷◌, ◌++◌, Bytes, codes, bytes_eq, leb, if◌then◌else◌,
  length, take,
}
use masche.Go.{Outcome, done, panic, ◌>>=◌}
use masche.Go.Strings.{split}
use masche.Go.Strings.Space.{trim_space}
use masche.Go.Lines.{newline}
use masche.Process.Info.Wmic.{slice}

-- `headingLine`, `processLine` and `separatorLineTokens`.
pub record Printed : Type 0 where
  pub heading_line : Bytes
  pub process_line : Bytes
  pub separator_line_tokens : List Bytes

unfoldable pub is_heading : Bytes → Bool
is_heading line = leb 10 (length line) && bytes_eq (take 10 line) (codes "Image Name")

-- At the line of headings, with the lines behind it.
unfoldable pub printed_at : Bytes → List Bytes → Outcome Printed
printed_at line (separator ∷ process ∷ _) = done record {
  heading_line = line;
  process_line = process;
  separator_line_tokens = split separator b' ';
}
printed_at line (separator ∷ []) = panic
printed_at line [] = panic

-- The loop over the lines.
unfoldable pub lines_loop : List Bytes → Outcome Printed
unfolding printed_at
lines_loop [] = done record { heading_line = []; process_line = []; separator_line_tokens = [] }
lines_loop (line ∷ lines) = elim (is_heading line) [
  | true ↦ printed_at line lines
  | false ↦ lines_loop lines
]

unfoldable pub total_length : List Bytes → ℕ
total_length [] = 0
total_length (token ∷ tokens) = length token + total_length tokens

-- The loop over the tokens: those in front, the position so far, and the tokens that are left.
unfoldable pub tokens_loop : Bytes → List Bytes → ℕ → List Bytes → Outcome (ℕ × Bytes)
unfolding total_length slice
tokens_loop line preceeding position [] = done (position, [])
tokens_loop line preceeding position (token ∷ tokens) =
    let here = length preceeding + total_length preceeding in
    let rest = tokens_loop line (preceeding ++ token ∷ []) here tokens in
    slice line here (here + 9) >>= λ text.
    if bytes_eq text (codes "User Name") then done (here, token) else rest

-- `tokens[len(tokens) - 1]`
unfoldable pub last_token : List Bytes → Outcome Bytes
last_token [] = panic
last_token (token ∷ []) = done token
last_token (_ ∷ token ∷ tokens) = last_token (token ∷ tokens)

-- The part of `userName` behind the call of tasklist.
unfoldable pub tasklist_user : Bytes → Outcome Bytes
unfolding lines_loop tokens_loop last_token
tasklist_user output = lines_loop (split output newline) >>= λ p.
    tokens_loop p.heading_line [] 0 p.separator_line_tokens >>= λ (position, token).
    slice p.process_line position (position + length token) >>= λ user.
    last_token (split (trim_space user) b'\\')

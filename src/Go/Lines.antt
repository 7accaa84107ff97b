-- ===== src/Go/Lines.antt =====
-- Package bufio: the lines that a `Scanner` yields, and no other use of it.
use masche.Prelude.{
  ℕ, ◌+◌, ◌<◌, ◌≡◌, refl, true, false, List, [], ◌∷◌, ◌++◌, append-nil, append_assoc, arith, Bytes,
  ◌==◌, ltb, if◌then◌else◌, length, length-append, ap, ◌∙◌,
}
use masche.Go.Strings.{Lacks}

abbrev pub newline : ℕ
newline = 10

abbrev pub return : ℕ
return = 13

-- `bufio.MaxScanTokenSize`: a line that fills the buffer, its end included, stops the scanner.
abbrev pub max_token : ℕ
max_token = 65536

-- `ScanLines` drops one carriage return at the end of a line.
unfoldable pub drop_cr : Bytes → Bytes
drop_cr [] = []
drop_cr (c ∷ []) = if c == return then [] else c ∷ []
drop_cr (c ∷ d ∷ s) = c ∷ drop_cr (d ∷ s)

-- The lines still to come, from the unread text and the part of the current line that was read.
unfoldable pub lines_from : Bytes → Bytes → List Bytes
unfolding drop_cr
lines_from [] [] = []
lines_from [] (b ∷ cur) = if ltb (length (b ∷ cur)) max_token then drop_cr (b ∷ cur) ∷ [] else []
lines_from (c ∷ s) cur = elim (c == newline) [
  | true ↦ elim (ltb (length cur) max_token) [ true ↦ drop_cr cur ∷ lines_from s [] | false ↦ [] ]
  | false ↦ lines_from s (cur ++ c ∷ [])
]

-- The texts that `Scan` and `Text` give, in order.
unfoldable pub lines : Bytes → List Bytes
unfolding lines_from
lines s = lines_from s []

-- A text that is read back as one line.
abbrev pub IsLine : Bytes → Type 0
IsLine s = Lacks newline s × Lacks return s × (length s < max_token)

pub drop_cr-Lacks : (s : Bytes) → Lacks return s → drop_cr s ≡ s
unfolding drop_cr
drop_cr-Lacks [] h = refl
drop_cr-Lacks (c ∷ []) h = ground arith
drop_cr-Lacks (c ∷ d ∷ s) h = ap (λ t. c ∷ t) (drop_cr-Lacks (d ∷ s) h.1)

lines_from-append :
    (l rest cur : Bytes)
    → Lacks newline l
    → length cur + length l < max_token
    → lines_from (l ++ newline ∷ rest) cur ≡ drop_cr (cur ++ l) ∷ lines_from rest []
unfolding lines_from
lines_from-append [] rest cur h b = rw append-nil (ground arith)
lines_from-append (c ∷ l) rest cur h b = ground (
  arith,
  append_assoc cur (c ∷ []) l,
  length-append cur (c ∷ []),
  lines_from-append l rest (cur ++ c ∷ []) h.1,
)

-- A line in front of a text is the first line.
pub lines-append : (l rest : Bytes) → IsLine l → lines (l ++ newline ∷ rest) ≡ l ∷ lines rest
unfolding lines
lines-append l rest (n, r, b) =
    lines_from-append l rest [] n (omega arith)
    ∙ ap (λ t. t ∷ lines_from rest []) (drop_cr-Lacks l r)

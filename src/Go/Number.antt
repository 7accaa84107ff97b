-- ===== src/Go/Number.antt =====
-- Package strconv: `ParseUint(s, 16, 64)`, and the decimal print of `Sprintf("%d", n)`.
pub mod Hex
pub mod Decimal
use mathlib.Core.List.{cons-ne-nil}
use masche.Prelude.{
  ℕ, zero, suc, ◌+◌, ◌-◌, ◌*◌, ◌/◌, ◌%◌, ◌^◌, ◌≤◌, ◌<◌, ◌≡◌, refl, ◌≢◌, true, false, ◌&&◌, [], ◌∷◌,
  Option, none, some, arith, Bytes, ◌==◌, ltb, leb, if◌then◌else◌, inl, inr, ◌↔◌, Option-cases,
}

-- The value of a hexadecimal digit. `ParseUint` takes the letters of either case.
unfoldable pub digit : ℕ → Option ℕ
digit c =
    if leb b'0' c && leb c b'9'
    then some (c - b'0')
    else if leb b'a' c && leb c b'f'
    then some (c - b'a' + 10)
    else if leb b'A' c && leb c b'F'
    then some (c - b'A' + 10)
    else none

-- The failures of the loop: a byte that is no digit, and a number past 2 ^ 64 - 1.
pub data Scanned : Type 0 where
  number : ℕ → Scanned
  syntax range : Scanned

-- Below the cutoff `n * 16 + d` does not wrap around.
unfoldable pub scan : Bytes → ℕ → Scanned
scan [] n = number n
scan (c ∷ s) n = elim (digit c) [
  | none ↦ syntax
  | some d ↦ elim (ltb n (2 ^ 60)) [ true ↦ scan s (n * 16 + d) | false ↦ range ]
]

unfoldable pub parse_uint : Bytes → Scanned
unfolding scan digit
parse_uint [] = syntax
parse_uint (c ∷ s) = scan (c ∷ s) 0

-- The number that hexadecimal digits spell, for any text of them.
abbrev pub value : ℕ → Bytes → Option ℕ
value n [] = some n
value n (c ∷ s) = elim (digit c) [ none ↦ none | some d ↦ value (n * 16 + d) s ]

digit-lt : (c d : ℕ) → digit c ≡ some d → d < 16
unfolding digit
digit-lt c d h = ground arith

le-value : (s : Bytes) (n r : ℕ) → value n s ≡ some r → n ≤ r
le-value [] n r h = ground arith
le-value (c ∷ s) n r h = elim (Option-cases (digit c)) [
  | inl e ↦ ground arith
  | inr (d, e) ↦ ground (arith, le-value s (n * 16 + d) r)
]

-- What the loop accepts is the value of its digits, and fits.
scan-value :
    (s : Bytes) (n r : ℕ) → n < 2 ^ 64 → scan s n ≡ number r → (value n s ≡ some r) × (r < 2 ^ 64)
unfolding scan
scan-value [] n r b h = ground arith
scan-value (c ∷ s) n r b h = elim (Option-cases (digit c)) [
  | inl e ↦ ground arith
  | inr (d, e) ↦ ground (arith, digit-lt c d e, scan-value s (n * 16 + d) r)
]

value-scan : (s : Bytes) (n r : ℕ) → value n s ≡ some r → r < 2 ^ 64 → scan s n ≡ number r
unfolding scan
value-scan [] n r h b = ground arith
value-scan (c ∷ s) n r h b = elim (Option-cases (digit c)) [
  | inl e ↦ ground arith
  | inr (d, e) ↦ ground (arith, le-value s (n * 16 + d) r, value-scan s (n * 16 + d) r)
]

-- A text that is a hexadecimal number below 2 ^ 64.
abbrev pub Spells : Bytes → ℕ → Type 0
Spells s n = (s ≢ []) × (value 0 s ≡ some n) × (n < 2 ^ 64)

-- `ParseUint` accepts these texts, with their value, and no other.
pub parse_uint-Spells : (s : Bytes) (n : ℕ) → (parse_uint s ≡ number n) ↔ Spells s n
unfolding parse_uint
parse_uint-Spells [] n = (λ h. absurd (cc), λ h. absurd (h.0 refl))
parse_uint-Spells (c ∷ s) n = (
  λ h. let (v, b) = scan-value (c ∷ s) 0 n (omega arith) h in (cons-ne-nil c s, v, b),
  λ h. value-scan (c ∷ s) 0 n h.1 h.2,
)

-- `Sprintf("%d", n)`; twenty digits are enough below 2 ^ 64.
unfoldable pub digits : ℕ → ℕ → Bytes → Bytes
digits zero n out = out
digits (suc f) n out =
    let rest = digits f (n / 10) ((b'0' + n % 10) ∷ out) in if n == 0 then out else rest

unfoldable pub decimal : ℕ → Bytes
decimal n = if n == 0 then b'0' ∷ [] else digits 20 n []

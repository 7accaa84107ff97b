-- ===== src/Go/Number/Decimal.antt =====
-- Package strconv: `Atoi`, which accepts a sign, and the decimal print of an `int`.
pub mod Print
use masche.Prelude.{
  ℕ, zero, suc, ◌+◌, ◌-◌, ◌*◌, ◌/◌, ◌%◌, ◌^◌, ◌≤◌, ◌<◌, ◌≡◌, ◌≢◌, refl, Bool, true, false, ◌&&◌,
  List, [], ◌∷◌, Option, none, some, arith, Bytes, ◌==◌, ltb, leb, if◌then◌else◌, ap, Bool-cases,
  inl, inr, ◌∙◌,
}
use masche.Go.{Result, ok, err, atoi_syntax, atoi_range}
use masche.Go.Int.{ℤ, pos, negsuc}
use masche.Go.Number.{Scanned, number, syntax, range, decimal, digits}

-- The loop of `ParseUint(s, 10, 64)`: a number past 2 ^ 64 - 1 ends it at once.
unfoldable pub scan_decimal : Bytes → ℕ → Scanned
scan_decimal [] n = number n
scan_decimal (c ∷ s) n = elim (leb b'0' c && leb c b'9') [
  | false ↦ syntax
  | true ↦ elim (ltb (n * 10 + (c - b'0')) (2 ^ 64)) [
    | true ↦ scan_decimal s (n * 10 + (c - b'0'))
    | false ↦ range
  ]
]

unfoldable pub unsigned : Bytes → Scanned
unfolding scan_decimal
unsigned [] = syntax
unsigned (c ∷ s) = scan_decimal (c ∷ s) 0

-- What is left of the text behind its sign.
unfoldable pub signed : Bytes → Bool × Bytes
signed [] = (false, [])
signed (c ∷ s) = if c == b'-' then (true, s) else if c == b'+' then (false, s) else (false, c ∷ s)

-- An `int` is between -2 ^ 63 and 2 ^ 63 - 1.
unfoldable pub int_of : Bytes → Bool → Scanned → Result ℤ
int_of s neg syntax = err (atoi_syntax s)
int_of s neg range = err (atoi_range s)
int_of s false (number n) = if ltb n (2 ^ 63) then ok (pos n) else err (atoi_range s)
int_of s true (number zero) = ok (pos 0)
int_of s true (number (suc n)) = if ltb n (2 ^ 63) then ok (negsuc n) else err (atoi_range s)

unfoldable pub atoi : Bytes → Result ℤ
unfolding unsigned signed int_of
atoi s = let (neg, rest) = signed s in int_of s neg (unsigned rest)

-- `Sprintf("%d", n)` of an `int`.
unfoldable pub decimal_ℤ : ℤ → Bytes
unfolding decimal digits
decimal_ℤ (pos n) = decimal n
decimal_ℤ (negsuc n) = b'-' ∷ decimal (suc n)

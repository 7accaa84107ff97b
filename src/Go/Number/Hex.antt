-- ===== src/Go/Number/Hex.antt =====
-- Package strconv: `FormatUint(n, 16)`, which `Sprintf("%x", n)` prints too.
use masche.Prelude.{
  ℕ, zero, suc, ◌+◌, ◌-◌, ◌*◌, ◌/◌, ◌%◌, ◌^◌, ◌<◌, ◌≡◌, [], ◌∷◌, some, arith, Bytes, ◌==◌, ltb,
  if◌then◌else◌, ap, Bool-cases, inl, inr, ◌∙◌,
}
use masche.Go.Number.{digit, value, Spells}

unfoldable pub hex_digit : ℕ → ℕ
hex_digit d = if ltb d 10 then b'0' + d else b'a' + (d - 10)

unfoldable pub hex_digits : ℕ → ℕ → Bytes → Bytes
hex_digits zero n out = out
hex_digits (suc f) n out =
    let rest = hex_digits f (n / 16) (hex_digit (n % 16) ∷ out) in if n == 0 then out else rest

-- Sixteen digits are enough below 2 ^ 64.
unfoldable pub hex : ℕ → Bytes
hex n = if n == 0 then b'0' ∷ [] else hex_digits 16 n []

digit-hex_digit : (d : ℕ) → d < 16 → digit (hex_digit d) ≡ some d
unfolding digit hex_digit
digit-hex_digit d h = ground arith

value-cons :
    (n c d : ℕ) (out : Bytes) → digit c ≡ some d → value n (c ∷ out) ≡ value (n * 16 + d) out
value-cons n c d out h = ground (arith)

value-hex_digits : (f n : ℕ) (out : Bytes) → n < 16 ^ f → value 0 (hex_digits f n out) ≡ value n out
unfolding hex_digits
value-hex_digits zero n out h = let e : n ≡ 0 = omega arith in rw e
value-hex_digits (suc f) n out h = elim (Bool-cases (n == 0)) [
  | inl e ↦ ground arith
  | inr e ↦
      let c = hex_digit (n % 16) in
      let same : n / 16 * 16 + n % 16 ≡ n = omega arith in
      let last : value (n / 16) (c ∷ out) ≡ value n out =
        value-cons (n / 16) c (n % 16) out (digit-hex_digit (n % 16) (omega arith))
        ∙ ap (λ k. value k out) same in
      rw e (value-hex_digits f (n / 16) (c ∷ out) (omega arith) ∙ last)
]

value-hex : (n : ℕ) → n < 2 ^ 64 → value 0 (hex n) ≡ some n
unfolding hex digit
value-hex n h = elim (Bool-cases (n == 0)) [
  | inl e ↦ ground arith
  | inr e ↦ rw e (value-hex_digits 16 n [] (omega arith))
]

-- What is printed is read back.
pub hex-Spells : (n : ℕ) → n < 2 ^ 64 → Spells (hex n) n
unfolding hex
hex-Spells n h = (λ e. ground (arith, value-hex n h), value-hex n h, h)

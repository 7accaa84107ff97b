-- ===== src/Go/Number/Decimal/Print.antt =====
-- `Atoi` reads what `%d` prints.
use masche.Prelude.{
  ℕ, zero, suc, ◌+◌, ◌*◌, ◌/◌, ◌%◌, ◌^◌, ◌≤◌, ◌<◌, ◌≡◌, ◌≢◌, refl, false, [], ◌∷◌, arith, Bytes,
  ◌==◌, ap, Bool-cases, inl, inr, ◌∙◌,
}
use masche.Go.{ok}
use masche.Go.Int.{pos}
use masche.Go.Number.{number, decimal, digits}
use masche.Go.Number.Decimal.{scan_decimal, unsigned, signed, int_of, atoi}

scan_decimal-cons :
    (d n : ℕ) (s : Bytes)
    → d < 10
    → n * 10 + d < 2 ^ 64
    → scan_decimal ((b'0' + d) ∷ s) n ≡ scan_decimal s (n * 10 + d)
unfolding scan_decimal
scan_decimal-cons d n s h b = ground arith

scan_decimal-digits :
    (f n : ℕ) (out : Bytes)
    → n < 10 ^ f
    → n < 2 ^ 64
    → scan_decimal (digits f n out) 0 ≡ scan_decimal out n
unfolding digits
scan_decimal-digits zero n out h b = let e : n ≡ 0 = omega arith in rw e
scan_decimal-digits (suc f) n out h b = elim (Bool-cases (n == 0)) [
  | inl e ↦ ground arith
  | inr e ↦
      let same : n / 10 * 10 + n % 10 ≡ n = omega arith in
      let last : scan_decimal ((b'0' + n % 10) ∷ out) (n / 10) ≡ scan_decimal out n =
        scan_decimal-cons (n % 10) (n / 10) out (omega arith) (omega arith)
        ∙ ap (λ k. scan_decimal out k) same in
      rw e
        (scan_decimal-digits f (n / 10) ((b'0' + n % 10) ∷ out) (omega arith) (omega arith) ∙ last)
]

scan_decimal-decimal : (n : ℕ) → n < 2 ^ 64 → scan_decimal (decimal n) 0 ≡ number n
unfolding decimal
scan_decimal-decimal n h = elim (Bool-cases (n == 0)) [
  | inl e ↦ unfold scan_decimal in ground arith
  | inr e ↦ rw e (scan_decimal-digits 20 n [] (omega arith) h ∙ unfold scan_decimal in refl)
]

first_digit :
    (c : ℕ) (s : Bytes) (n : ℕ) → scan_decimal (c ∷ s) 0 ≡ number n → (b'0' ≤ c) × (c ≤ b'9')
unfolding scan_decimal
first_digit c s n h = ground arith

-- Digits are read as they stand, without a sign.
signed_digits :
    (s : Bytes) (n : ℕ)
    → s ≢ []
    → scan_decimal s 0 ≡ number n
    → (signed s ≡ (false, s)) × (unsigned s ≡ number n)
unfolding signed unsigned
signed_digits [] n ne h = absurd (ne refl)
signed_digits (c ∷ s) n ne h = let (low, high) = first_digit c s n h in ground arith

decimal-ne-nil : (n : ℕ) → n < 2 ^ 64 → decimal n ≢ []
decimal-ne-nil n h e = elim (Bool-cases (n == 0)) [
  | inl z ↦ unfold decimal in ground arith
  | inr z ↦ unfold scan_decimal in ground (arith, scan_decimal-decimal n h)
]

pub atoi-decimal : (n : ℕ) → n < 2 ^ 63 → atoi (decimal n) ≡ ok (pos n)
unfolding atoi int_of
atoi-decimal n h =
    let e =
      signed_digits (decimal n) n (decimal-ne-nil n (omega arith))
        (scan_decimal-decimal n (omega arith)) in
    ground (arith, e.0, e.1)

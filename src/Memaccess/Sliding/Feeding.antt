-- ===== src/Memaccess/Sliding/Feeding.antt =====
-- The pieces of a short run, and what a callback makes of runs.
use masche.Prelude.{ℕ, zero, suc, ◌+◌, ◌-◌, ◌≤◌, ◌<◌, ◌≡◌, List, [], ◌∷◌, ltb, if◌then◌else◌, arith}
use masche.Memaccess.Image.{read}
use masche.Memaccess.Walk.{WalkFunc}
use masche.Memaccess.Walk.Visits.{pieces, pieces-none, feed}

pub pieces-one : (m n a : ℕ) → 0 < m → m ≤ n → pieces m n a m ≡ (a, m) ∷ []
unfolding pieces
pieces-one zero n a p h = absurd (omega arith)
pieces-one (suc m) n a p h =
    let none_left : suc m - suc m ≡ 0 = omega arith in ground (arith, pieces-none m n (a + suc m))

pub pieces-two :
    (m n a : ℕ) → n < m → m ≤ n + n → 0 < n → pieces m n a m ≡ (a, n) ∷ (a + n, m - n) ∷ []
unfolding pieces
pieces-two zero n a h l p = absurd (omega arith)
pieces-two (suc zero) n a h l p = absurd (omega arith)
pieces-two (suc (suc m)) n a h l p =
    let none_left : suc (suc m) - n - (suc (suc m) - n) ≡ 0 = omega arith in
    ground (arith, pieces-none m n (a + n + (suc (suc m) - n)))

-- The second of two pieces, as long as it can be.
abbrev pub second_piece : ℕ → ℕ → ℕ
second_piece m n = if ltb (m - n) n then m - n else n

pub pieces-more :
    (m n a : ℕ)
    → n < m
    → 0 < n
    → (rounds : ℕ) × (pieces m n a m
        ≡ (a, n)
          ∷ (a + n, second_piece m n)
          ∷ pieces rounds n (a + n + second_piece m n) (m - n - second_piece m n))
unfolding pieces
pieces-more zero n a h p = absurd (omega arith)
pieces-more (suc zero) n a h p = absurd (omega arith)
pieces-more (suc (suc m)) n a h p = (m, ground arith)

pub pieces-some :
    (m n a : ℕ) → 0 < m → (k : ℕ) × (vs : List (ℕ × ℕ)) × (pieces m n a m ≡ (a, k) ∷ vs)
unfolding pieces
pieces-some zero n a p = absurd (omega arith)
pieces-some (suc m) n a p =
    let k = if ltb (suc m) n then suc m else n in (k, pieces m n (a + k) (suc m - k), ground arith)

module _ {S : Type 0} (walk_fn : WalkFunc S) (memory : ℕ → ℕ) where
  pub feed-same :
      (a m : ℕ) (vs : List (ℕ × ℕ)) (s s' : S)
      → walk_fn a (read memory a m) s ≡ walk_fn a (read memory a m) s'
      → feed memory walk_fn ((a, m) ∷ vs) s ≡ feed memory walk_fn ((a, m) ∷ vs) s'
  unfolding feed
  feed-same a m vs s s' h = ground (arith, h)

-- ===== src/Memaccess/Image/Gaps.antt =====
-- Between two readable runs there is a gap: runs that meet are one.
use masche.Prelude.{
  ℕ, suc, ◌+◌, ◌-◌, ◌≤◌, ◌<◌, ◌≡◌, List, [], ◌∷◌, ◌==◌, arith, Bool-cases, inl, inr,
}
use masche.Go.{word}
use masche.Memaccess.Region.{readable, allows, MemoryRegion}
use masche.Memaccess.Image.{end_of, IsLayout, attach, runs}
use masche.Memaccess.Image.Runs.{IsLayout-runs}

-- The runs begin behind an address, have bytes, do not meet and end below 2 ^ 64.
abbrev pub Gaps : ℕ → List MemoryRegion → Type 0
Gaps low [] = Unit
Gaps low (r ∷ rs) = (low < r.address) × (0 < r.size) × (end_of r < word) × Gaps (end_of r) rs

abbrev GapsBehind : List MemoryRegion → Type 0
GapsBehind [] = Unit
GapsBehind (r ∷ rs) = Gaps (end_of r) rs

Gaps-le : (rs : List MemoryRegion) (a b : ℕ) → a ≤ b → Gaps b rs → Gaps a rs
Gaps-le [] a b h g = tt
Gaps-le (r ∷ rs) a b h (l, p, e, g) = (omega arith, p, e, g)

Gaps-behind : (rs : List MemoryRegion) (a : ℕ) → Gaps a rs → GapsBehind rs
Gaps-behind [] a g = tt
Gaps-behind (r ∷ rs) a g = g.3

attach-Gaps :
    (r : MemoryRegion) (rs : List MemoryRegion) (low : ℕ)
    → low < r.address
    → 0 < r.size
    → end_of r < word
    → IsLayout (end_of r) rs
    → GapsBehind rs
    → Gaps low (attach r rs)
unfolding attach
attach-Gaps r [] low l p e t g = (l, p, e, tt)
attach-Gaps r (s ∷ ss) low l p e t g = elim (Bool-cases (s.address == end_of r)) [
  | inl d ↦
      let sums : r.address + (r.size + s.size) ≡ end_of s = ground arith in
      rw (d, sums) (l, omega arith, t.2, g)
  | inr d ↦ rw d (l, p, e, (ground arith, t.1, t.2, g))
]

pub runs-Gaps : (rs : List MemoryRegion) (low : ℕ) → IsLayout (suc low) rs → Gaps low (runs rs)
unfolding runs
runs-Gaps [] low l = tt
runs-Gaps (r ∷ rs) low (l, p, e, t) =
    let some_low : end_of r ≡ suc (end_of r - 1) = omega arith in
    let ih = runs-Gaps rs (end_of r - 1) (rw some_low at t) in
    elim (Bool-cases (allows r.access readable)) [
      | inl d ↦ rw d (
          attach-Gaps r (runs rs) low (omega arith) p e (IsLayout-runs rs (end_of r) t)
            (Gaps-behind (runs rs) (end_of r - 1) ih))
      | inr d ↦ rw d (Gaps-le (runs rs) low (end_of r - 1) (omega arith) ih)
    ]

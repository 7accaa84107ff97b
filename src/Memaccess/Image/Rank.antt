-- ===== src/Memaccess/Image/Rank.antt =====
-- How many runs there are from an address on.
use masche.Prelude.{
  ℕ, ◌+◌, ◌≤◌, ◌≡◌, List, [], ◌∷◌, ◌==◌, leb, length, All, arith, ap, ◌∙◌, Bool-cases, inl, inr,
}
use masche.Memaccess.Region.{readable, allows, MemoryRegion}
use masche.Memaccess.Image.{end_of, IsLayout, after, attach, runs}
use masche.Memaccess.Image.Layout.{after-low, after-after, after-skip, after-IsLayout}
use masche.Memaccess.Image.Runs.{IsLayout-runs, attach-head}

abbrev pub rank : List MemoryRegion → ℕ → ℕ
rank regions a = length (runs (after a regions))

length-attach-le : (r : MemoryRegion) (rs : List MemoryRegion) → length rs ≤ length (attach r rs)
unfolding attach
length-attach-le r [] = omega arith
length-attach-le r (s ∷ ss) = ground arith

length-runs-after : (rs : List MemoryRegion) (a : ℕ) → length (runs (after a rs)) ≤ length (runs rs)
unfolding after runs
length-runs-after [] a = omega arith
length-runs-after (r ∷ rs) a = ground (arith, length-runs-after rs a, length-attach-le r (runs rs))

pub rank-le : (regions : List MemoryRegion) (a b : ℕ) → a ≤ b → rank regions b ≤ rank regions a
rank-le regions a b h = rw (after-after regions a b h) at (length-runs-after (after a regions) b)

runs-head :
    (rs : List MemoryRegion) (low : ℕ) (r : MemoryRegion) (rest : List MemoryRegion)
    → IsLayout low rs
    → runs rs ≡ r ∷ rest
    → runs (after r.address rs) ≡ r ∷ rest
unfolding runs
runs-head [] low r rest l h = absurd (cc)
runs-head (x ∷ xs) low r rest (l, p, e, t) h = elim (Bool-cases (allows x.access readable)) [
  | inl d ↦
      let head = attach-head x (runs xs) r rest (rw (d, runs) at h) in
      ap runs (
        ap (λ t. after t (x ∷ xs)) head.0
        ∙ after-low (x ∷ xs) x.address x.address (omega arith) (omega arith, p, e, t))
      ∙ h
  | inr d ↦
      let h' : runs xs ≡ r ∷ rest = rw (d, runs) at h in
      let above = rw h' at (IsLayout-runs xs (end_of x) t) in
      rw (after-skip x xs r.address above.0) (runs-head xs (end_of x) r rest t h')
]

-- From the address of the first run on there are the same runs.
pub runs_at :
    (rs : List MemoryRegion) (low a : ℕ) (r : MemoryRegion) (rest : List MemoryRegion)
    → IsLayout low rs
    → runs (after a rs) ≡ r ∷ rest
    → runs (after r.address rs) ≡ r ∷ rest
unfolding after runs
runs_at [] low a r rest l h = absurd (cc)
runs_at (x ∷ xs) low a r rest (l, p, e, t) h = elim (Bool-cases (leb (end_of x) a)) [
  | inl d ↦
      let h' : runs (after a xs) ≡ r ∷ rest = rw (d, after) at h in
      let above =
        rw h' at (IsLayout-runs (after a xs) (end_of x) (after-IsLayout xs a (end_of x) t)) in
      rw (after-skip x xs r.address above.0) (runs_at xs (end_of x) a r rest t h')
  | inr d ↦ runs-head (x ∷ xs) low r rest (l, p, e, t) (rw (d, after) at h)
]

module _ (top : ℕ) where
  abbrev Low : List MemoryRegion → Type 0
  Low = All (λ (r : MemoryRegion). end_of r ≤ top)

  after-Low : (rs : List MemoryRegion) (a : ℕ) → Low rs → Low (after a rs)
  unfolding after
  after-Low [] a h = tt
  after-Low (r ∷ rs) a (h, hs) = elim (Bool-cases (leb (end_of r) a)) [
    | inl e ↦ rw (after, e) (after-Low rs a hs)
    | inr e ↦ rw (after, e) (h, hs)
  ]

  attach-Low :
      (r : MemoryRegion) (rs : List MemoryRegion) → end_of r ≤ top → Low rs → Low (attach r rs)
  unfolding attach
  attach-Low r [] h hs = (h, tt)
  attach-Low r (s ∷ ss) h (k, hs) = elim (Bool-cases (s.address == end_of r)) [
    | inl e ↦
        let sums : r.address + (r.size + s.size) ≡ end_of s = ground arith in
        rw (attach, e) (rw sums k, hs)
    | inr e ↦ rw (attach, e) (h, (k, hs))
  ]

  runs-Low : (rs : List MemoryRegion) → Low rs → Low (runs rs)
  unfolding runs
  runs-Low [] h = tt
  runs-Low (r ∷ rs) (h, hs) = elim (Bool-cases (allows r.access readable)) [
    | inl e ↦ rw (runs, e) (attach-Low r (runs rs) h (runs-Low rs hs))
    | inr e ↦ rw (runs, e) (runs-Low rs hs)
  ]

  pub runs-after-Low : (rs : List MemoryRegion) (a : ℕ) → Low rs → Low (runs (after a rs))
  runs-after-Low rs a h = runs-Low (after a rs) (after-Low rs a h)

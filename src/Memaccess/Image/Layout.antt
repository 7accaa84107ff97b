-- ===== src/Memaccess/Image/Layout.antt =====
-- The regions of a layout that do not end at or before an address.
use masche.Prelude.{
  ℕ, ◌≤◌, ◌<◌, ◌≡◌, refl, inl, inr, true, false, List, [], ◌∷◌, leb, arith, length, Bool-cases,
  bytes_eq,
}
use masche.Memaccess.Region.{MemoryRegion, no_region_available, is_no_region}
use masche.Memaccess.Image.{end_of, IsLayout, after, HoldsAt}

pub is_no_region-pos : (r : MemoryRegion) → 0 < r.size → is_no_region r ≡ false
unfolding is_no_region
is_no_region-pos r h = ground arith

pub is_no_region-none : is_no_region no_region_available ≡ true
unfolding is_no_region bytes_eq
is_no_region-none = refl

pub IsLayout-le : (rs : List MemoryRegion) {a b : ℕ} → a ≤ b → IsLayout b rs → IsLayout a rs
IsLayout-le [] h l = tt
IsLayout-le (r ∷ rs) h (l, p, e, t) = (omega arith, p, e, t)

pub after-low : (rs : List MemoryRegion) (a b : ℕ) → a ≤ b → IsLayout b rs → after a rs ≡ rs
unfolding after
after-low [] a b h l = refl
after-low (r ∷ rs) a b h l = ground arith

pub after-after : (rs : List MemoryRegion) (a b : ℕ) → a ≤ b → after b (after a rs) ≡ after b rs
unfolding after
after-after [] a b h = refl
after-after (r ∷ rs) a b h = ground (arith, after-after rs a b h)

pub after-IsLayout :
    (rs : List MemoryRegion) (a low : ℕ) → IsLayout low rs → IsLayout low (after a rs)
unfolding after
after-IsLayout [] a low l = tt
after-IsLayout (r ∷ rs) a low (l, p, e, t) = elim (Bool-cases (leb (end_of r) a)) [
  | inl d ↦ rw d (IsLayout-le (after a rs) (omega arith) (after-IsLayout rs a (end_of r) t))
  | inr d ↦ rw d (l, p, e, t)
]

pub length-after : (rs : List MemoryRegion) (a : ℕ) → length (after a rs) ≤ length rs
unfolding after
length-after [] a = omega arith
length-after (r ∷ rs) a = ground (arith, length-after rs a)

-- Behind the first region of `after a rs` come the others.
pub after-next :
    (rs : List MemoryRegion) (a low : ℕ) (r : MemoryRegion) (rest : List MemoryRegion)
    → IsLayout low rs
    → after a rs ≡ r ∷ rest
    → (after (end_of r) rs ≡ rest) × (a < end_of r)
unfolding after
after-next [] a low r rest l h = absurd (cc)
after-next (x ∷ xs) a low r rest (l, p, e, t) h = elim (Bool-cases (leb (end_of x) a)) [
  | inl d ↦ ground (arith, after-next xs a (end_of x) r rest t)
  | inr d ↦ ground (arith, after-low xs (end_of x) (end_of x) (omega arith) t)
]

pub after-skip :
    (x : MemoryRegion) (xs : List MemoryRegion) (a : ℕ)
    → end_of x ≤ a
    → after a (x ∷ xs) ≡ after a xs
unfolding after
after-skip x xs a h = ground arith

pub HoldsAt-after : (rs : List MemoryRegion) (a x : ℕ) → HoldsAt (after a rs) x → HoldsAt rs x
unfolding after
HoldsAt-after [] a x h = h
HoldsAt-after (r ∷ rs) a x h = elim (Bool-cases (leb (end_of r) a)) [
  | inl d ↦ inr (HoldsAt-after rs a x (rw d at h))
  | inr d ↦ rw d at h
]

-- ===== src/Memaccess/Image/Runs.antt =====
-- The readable runs of a layout.
use masche.Prelude.{
  ℕ, suc, ◌+◌, ◌≤◌, ◌<◌, ◌≡◌, refl, ◌⊎◌, inl, inr, false, List, [], ◌∷◌, ◌==◌, arith, length, All,
  Bool-cases, List-cases, ◌∙◌, sym, ltb,
}
use masche.Go.{word}
use masche.Memaccess.Region.{readable, allows, MemoryRegion, no_region_available}
use masche.Memaccess.Image.{end_of, IsLayout, after, first, find, attach, runs, HoldsAt, Covers}
use masche.Memaccess.Image.Layout.{IsLayout-le, after-low, after-skip, HoldsAt-after}

pub IsLayout-attach :
    (r : MemoryRegion) (rs : List MemoryRegion) (low : ℕ)
    → low ≤ r.address
    → 0 < r.size
    → end_of r < word
    → IsLayout (end_of r) rs
    → IsLayout low (attach r rs)
unfolding attach
IsLayout-attach r [] low l p e t = (l, p, e, tt)
IsLayout-attach r (s ∷ ss) low l p e t = elim (Bool-cases (s.address == end_of r)) [
  | inl d ↦ rw d (l, omega arith, ground arith, IsLayout-le ss (ground arith) t.3)
  | inr d ↦ rw d (l, p, e, t)
]

pub IsLayout-runs : (rs : List MemoryRegion) (low : ℕ) → IsLayout low rs → IsLayout low (runs rs)
unfolding runs
IsLayout-runs [] low l = tt
IsLayout-runs (r ∷ rs) low (l, p, e, t) = elim (Bool-cases (allows r.access readable)) [
  | inl d ↦ rw d (IsLayout-attach r (runs rs) low l p e (IsLayout-runs rs (end_of r) t))
  | inr d ↦ rw d (IsLayout-le (runs rs) (omega arith) (IsLayout-runs rs (end_of r) t))
]

-- The first region of an attached list starts where the region does, and ends at it or later.
pub attach-head :
    (x : MemoryRegion) (ys : List MemoryRegion) (r : MemoryRegion) (rest : List MemoryRegion)
    → attach x ys ≡ r ∷ rest
    → (r.address ≡ x.address) × (end_of x ≤ end_of r)
unfolding attach
attach-head x [] r rest h = ground arith
attach-head x (y ∷ ys) r rest h = ground arith

pub attach-nil : (x : MemoryRegion) → attach x [] ≡ x ∷ []
unfolding attach
attach-nil x = refl

pub attach-joined :
    (x s : MemoryRegion) (ss : List MemoryRegion)
    → s.address ≡ end_of x
    → attach x (s ∷ ss) ≡ record x { size = x.size + s.size } ∷ ss
unfolding attach
attach-joined x s ss h = ground arith

pub attach-apart :
    (x s : MemoryRegion) (ss : List MemoryRegion)
    → (s.address == end_of x) ≡ false
    → attach x (s ∷ ss) ≡ x ∷ s ∷ ss
unfolding attach
attach-apart x s ss h = ground arith

module _ (x : MemoryRegion) (xs : List MemoryRegion) (r : MemoryRegion) (rest : List MemoryRegion)
    (stays : after (end_of x) xs ≡ xs) (h : attach x (runs xs) ≡ r ∷ rest) where
  runs-after-alone : runs xs ≡ [] → runs (after (end_of r) xs) ≡ rest
  runs-after-alone e = cc (attach-nil x)

  module _ (s : MemoryRegion) (ss : List MemoryRegion) (e : runs xs ≡ s ∷ ss) where
    runs-after-apart : (s.address == end_of x) ≡ false → runs (after (end_of r) xs) ≡ rest
    runs-after-apart d = cc (attach-apart x s ss d)

    runs-after-joined :
        s.address ≡ end_of x → runs (after (end_of s) xs) ≡ ss → runs (after (end_of r) xs) ≡ rest
    runs-after-joined d ih =
        let same : record x { size = x.size + s.size } ∷ ss ≡ r ∷ rest =
          sym (attach-joined x s ss d) ∙ rw (← e) h in
        let ends : end_of r ≡ end_of s = ground arith in rw ends (ih ∙ cc)

-- Behind the first run come the others.
pub runs-after :
    (rs : List MemoryRegion) (low : ℕ) (r : MemoryRegion) (rest : List MemoryRegion)
    → IsLayout low rs
    → runs rs ≡ r ∷ rest
    → runs (after (end_of r) rs) ≡ rest
unfolding runs
runs-after [] low r rest l h = absurd (cc)
runs-after (x ∷ xs) low r rest (l, p, e, t) h = elim (Bool-cases (allows x.access readable)) [
  | inl d ↦
      let h' : attach x (runs xs) ≡ r ∷ rest = rw d at h in
      let stays = after-low xs (end_of x) (end_of x) (omega arith) t in
      rw (after-skip x xs (end_of r) (attach-head x (runs xs) r rest h').1)
        (elim (List-cases (runs xs)) [
          | inl g ↦ runs-after-alone x xs r rest stays h' g
          | inr (s, ss, g) ↦ elim (Bool-cases (s.address == end_of x)) [
            | inl m ↦
                runs-after-joined x xs r rest stays h' s ss g (ground arith)
                  (runs-after xs (end_of x) s ss t g)
            | inr m ↦ runs-after-apart x xs r rest stays h' s ss g m
          ]
        ])
  | inr d ↦
      let h' : runs xs ≡ r ∷ rest = rw d at h in
      let low' : IsLayout (end_of x) (r ∷ rest) = rw h' at (IsLayout-runs xs (end_of x) t) in
      rw (after-skip x xs (end_of r) (omega arith)) (runs-after xs (end_of x) r rest t h')
]

-- Runs that meet are joined from either side.
pub attach-attach :
    (r s : MemoryRegion) (ss : List MemoryRegion)
    → s.address ≡ end_of r
    → attach r (attach s ss) ≡ attach (record r { size = r.size + s.size }) ss
unfolding attach
attach-attach r s [] h = ground arith
attach-attach r s (t ∷ ts) h = ground arith

pub first-attach-attach :
    (r s : MemoryRegion) (ss : List MemoryRegion)
    → (s.address == end_of r) ≡ false
    → first (attach r (attach s ss)) ≡ r
unfolding attach first
first-attach-attach r s [] h = ground arith
first-attach-attach r s (t ∷ ts) h = ground arith

-- A run is readable at each of its addresses.
Covers-attach :
    (r : MemoryRegion) (rs ss : List MemoryRegion)
    → ((x : ℕ) → r.address ≤ x → x < end_of r → HoldsAt rs x)
    → All (Covers rs) ss
    → All (Covers rs) (attach r ss)
unfolding attach
Covers-attach r rs [] own others = (own, tt)
Covers-attach r rs (s ∷ ss) own others = elim (Bool-cases (s.address == end_of r)) [
  | inl d ↦ rw d (
    (λ x l h. elim (Bool-cases (ltb x (end_of r))) [
      | inl inside ↦ own x l (ground arith)
      | inr beyond ↦ others.0 x (ground arith) (ground arith)
    ]),
    others.1,
  )
  | inr d ↦ rw d (own, others)
]

All-Covers-cons :
    (r : MemoryRegion) (rs ss : List MemoryRegion) → All (Covers rs) ss → All (Covers (r ∷ rs)) ss
All-Covers-cons r rs [] h = tt
All-Covers-cons r rs (s ∷ ss) h = ((λ x l u. inr (h.0 x l u)), All-Covers-cons r rs ss h.1)

pub runs-Covers : (rs : List MemoryRegion) → All (Covers rs) (runs rs)
unfolding runs
runs-Covers [] = tt
runs-Covers (r ∷ rs) = elim (Bool-cases (allows r.access readable)) [
  | inl d ↦ rw d (
      Covers-attach r (r ∷ rs) (runs rs) (λ x l h. inl (d, l, h))
        (All-Covers-cons r rs (runs rs) (runs-Covers rs)))
  | inr d ↦ rw d (All-Covers-cons r rs (runs rs) (runs-Covers rs))
]

-- The first readable region of a layout, if there is one, and what `runs` makes of the others.
pub record FirstReadable (low : ℕ) (rs : List MemoryRegion) : Type 0 where
  pub region : MemoryRegion
  pub others : List MemoryRegion
  pub is_found : find readable rs ≡ region
  pub is_run : runs rs ≡ attach region (runs others)
  pub above : low ≤ region.address
  pub not_before :
      (r : MemoryRegion) (rest : List MemoryRegion) → rs ≡ r ∷ rest → end_of r ≤ end_of region
  pub has_bytes : 0 < region.size
  pub below : end_of region < word
  pub follow : after (end_of region) rs ≡ others
  pub follow_layout : IsLayout (end_of region) others
  pub fewer : length others < length rs

pub FirstReadable-cases :
    (rs : List MemoryRegion) (low : ℕ)
    → IsLayout low rs
    → ((find readable rs ≡ no_region_available) × (runs rs ≡ [])) ⊎ FirstReadable low rs
unfolding find runs
FirstReadable-cases [] low l = inl (refl, refl)
FirstReadable-cases (r ∷ rs) low (l, p, e, t) = elim (Bool-cases (allows r.access readable)) [
  | inl d ↦ inr (record {
    region = r;
    others = rs;
    is_found = rw d;
    is_run = rw d;
    above = l;
    not_before = λ x xs k. ground arith;
    has_bytes = p;
    below = e;
    follow =
        after-skip r rs (end_of r) (omega arith)
        ∙ after-low rs (end_of r) (end_of r) (omega arith) t;
    follow_layout = t;
    fewer = omega arith;
  })
  | inr d ↦ elim (FirstReadable-cases rs (end_of r) t) [
    | inl (a, b) ↦ inl (rw d a, rw d b)
    | inr f ↦ inr (record {
      region = f.region;
      others = f.others;
      is_found = rw d f.is_found;
      is_run = rw d f.is_run;
      above = omega (arith, f.above);
      not_before = λ x xs k. ground (arith, f.above);
      has_bytes = f.has_bytes;
      below = f.below;
      follow = after-skip r rs (end_of f.region) (omega (arith, f.above)) ∙ f.follow;
      follow_layout = f.follow_layout;
      fewer = omega (arith, f.fewer);
    })
  ]
]

pub All-Covers-after :
    (rs ss : List MemoryRegion) (a : ℕ) → All (Covers (after a rs)) ss → All (Covers rs) ss
All-Covers-after rs [] a h = tt
All-Covers-after rs (s ∷ ss) a h =
    ((λ x l u. HoldsAt-after rs a x (h.0 x l u)), All-Covers-after rs ss a h.1)

length-attach : (r : MemoryRegion) (rs : List MemoryRegion) → length (attach r rs) ≤ suc (length rs)
unfolding attach
length-attach r [] = omega arith
length-attach r (s ∷ ss) = ground arith

pub length-runs : (rs : List MemoryRegion) → length (runs rs) ≤ length rs
unfolding runs
length-runs [] = omega arith
length-runs (r ∷ rs) = ground (arith, length-runs rs, length-attach r (runs rs))

-- ===== src/Memaccess/Next/Moving.antt =====
-- The lookups over a layout that may change with every call.
use masche.Prelude.{
  ℕ, zero, suc, ◌+◌, ◌≤◌, ◌<◌, ◌≡◌, ◌⊎◌, inl, inr, true, ◌||◌, arith, Bool-cases, ltb,
}
use masche.Go.{done, word, add64}
use masche.Memaccess.Region.{
  Access, readable, allows, MemoryRegion, limit, no_region_available, is_no_region, Found,
}
use masche.Memaccess.Platform.{Platform}
use masche.Memaccess.Image.{end_of}
use masche.Memaccess.Image.Layout.{is_no_region-none}
use masche.Memaccess.Next.{
  is_error, next_memory_region, next_memory_region_access, extend, next_readable_memory_region,
}

-- Nothing, or a region that ends behind the address and not behind the bound.
abbrev pub IsAhead : ℕ → ℕ → MemoryRegion → Type 0
IsAhead a top r = (is_no_region r ≡ true) ⊎ ((0 < r.address) × (a < end_of r) × (end_of r ≤ top))

-- Each call returns, with an error, with nothing, or with a region that ends behind the address.
abbrev pub Advances : Platform → ℕ → Type 0
Advances P top =
    (a : ℕ) (w : P.World)
    → (f : Found) × (w' : P.World) × (P.next_memory_region a w ≡ done (f, w'))
      × ((is_error f.harderror ≡ true) ⊎ IsAhead a top f.region)

IsAhead-none : (a top : ℕ) → IsAhead a top no_region_available
IsAhead-none a top = inl is_no_region-none

pub no_region-empty : (r : MemoryRegion) → is_no_region r ≡ true → (r.address ≡ 0) × (r.size ≡ 0)
unfolding is_no_region
no_region-empty r h = (ground arith, ground arith)

module _ (P : Platform) (top : ℕ) (moves : Advances P top) (small : top + top < word) where
  access-Ends :
      (rounds a : ℕ) (access : Access) (w : P.World)
      → top < rounds + a
      → 0 < rounds
      → (f : Found) × (w' : P.World) × (next_memory_region_access P rounds a access w
          ≡ done (f, w'))
        × IsAhead a top f.region
  unfolding next_memory_region_access next_memory_region
  access-Ends zero a access w h p = absurd (omega arith)
  access-Ends (suc rounds) a access w h p =
      let (f, w1, e, ahead) = moves a w in
      elim (Bool-cases (is_error f.harderror || is_no_region f.region)) [
        | inl x ↦ (
          record f { region = no_region_available },
          w1,
          ground (arith, e, x),
          IsAhead-none a top,
        )
        | inr x ↦ elim ahead [
          | inl y ↦ absurd (ground arith)
          | inr (inl y) ↦ absurd (ground arith)
          | inr (inr (pos, behind, below)) ↦ elim (Bool-cases (allows f.region.access access)) [
            | inl y ↦ (f, w1, ground (arith, e, x, y), inr (pos, behind, below))
            | inr y ↦
                let here : limit f.region ≡ end_of f.region = omega (arith, below, small) in
                let (f', w', e', ahead') =
                  access-Ends rounds (limit f.region) access w1 (omega (arith, here, behind, h))
                    (omega (arith, behind, below, h)) in
                (
                  f',
                  w',
                  ground (arith, e, x, y, e'),
                  elim ahead' [
                    | inl n ↦ inl n
                    | inr (pos', behind', below') ↦
                        inr (pos', omega (arith, here, behind, behind'), below')
                  ],
                )
          ]
        ]
      ]

  extend-Ends :
      (fuel rounds : ℕ) (r : MemoryRegion) (w : P.World)
      → top < fuel
      → 0 < r.address
      → end_of r ≤ top + top
      → top < rounds + end_of r
      → 0 < rounds
      → (r' : MemoryRegion) × (w' : P.World) × (extend P fuel rounds r w ≡ done (r', w'))
        × (0 < r'.address)
        × (end_of r ≤ end_of r')
        × (end_of r' ≤ top + top)
  unfolding extend
  extend-Ends fuel zero r w enough q b h p = absurd (omega arith)
  extend-Ends fuel (suc rounds) r w enough q b h p =
      let here : limit r ≡ end_of r = omega (arith, b, small) in
      let (f, w1, e, ahead) =
        access-Ends fuel (limit r) readable w (omega (arith, enough)) (omega (arith, enough)) in
      elim (Bool-cases
        (is_error f.harderror || (is_no_region f.region || ltb (limit r) f.region.address))) [
          | inl x ↦ (r, w1, ground (arith, e, x), q, omega arith, b)
          | inr x ↦ elim ahead [
            | inl y ↦ absurd (ground arith)
            | inr (pos, behind, below) ↦
                let joins : f.region.address ≤ limit r = ground (arith, x) in
                let r1 : MemoryRegion = record r { size = add64 r.size f.region.size } in
                let grows : end_of r1 ≡ end_of r + f.region.size =
                  omega (arith, here, behind, below, b, small) in
                let (r', w', e', pos', more, below') =
                  extend-Ends fuel rounds r1 w1 enough q (omega (arith, grows, here, behind, below))
                    (omega (arith, grows, here, behind, joins, h))
                    (omega (arith, here, behind, below, h)) in
                (r', w', ground (arith, e, x, e'), pos', omega (arith, grows, more), below')
          ]
        ]

  extend_none-Ends :
      (fuel rounds : ℕ) (r : MemoryRegion) (w : P.World)
      → top < fuel
      → is_no_region r ≡ true
      → 0 < rounds
      → (w' : P.World) × (extend P fuel rounds r w ≡ done (r, w'))
  unfolding extend
  extend_none-Ends fuel zero r w enough n p = absurd (omega arith)
  extend_none-Ends fuel (suc rounds) r w enough n p =
      let (z, s) = no_region-empty r n in
      let (f, w1, e, ahead) =
        access-Ends fuel (limit r) readable w (omega (arith, enough)) (omega (arith, enough)) in
      elim ahead [
        | inl y ↦ (w1, ground (arith, e, y))
        | inr (pos, behind, below) ↦ (w1, ground (arith, e, z, s, pos))
      ]

  pub next_readable_memory_region-Ends :
      (fuel a : ℕ) (w : P.World)
      → top < fuel
      → (f : Found) × (w' : P.World) × (next_readable_memory_region P fuel a w ≡ done (f, w'))
        × IsAhead a (top + top) f.region
  unfolding next_readable_memory_region
  next_readable_memory_region-Ends fuel a w enough =
      let (f, w1, e, ahead) =
        access-Ends fuel a readable w (omega (arith, enough)) (omega (arith, enough)) in
      elim ahead [
        | inl n ↦
            let (w', e') =
              extend_none-Ends fuel fuel f.region w1 enough n (omega (arith, enough)) in
            (f, w', ground (arith, e, e'), inl n)
        | inr (pos, behind, below) ↦
            let (r', w', e', pos', more, below') =
              extend-Ends fuel fuel f.region w1 enough pos (omega (arith, below))
                (omega (arith, enough)) (omega (arith, enough)) in
            (
              record f { region = r' },
              w',
              ground (arith, e, e'),
              inr (pos', omega (arith, behind, more), below'),
            )
      ]

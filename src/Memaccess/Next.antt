-- ===== src/Memaccess/Next.antt =====
-- `NextMemoryRegion`, `NextMemoryRegionAccess` and `NextReadableMemoryRegion`. A loop gets `fuel`
-- rounds.
pub mod Stable
pub mod Moving
use masche.Prelude.{ℕ, zero, suc, Bool, true, false, ◌||◌, Option, none, some, ltb}
use masche.Go.{Error, Outcome, done, out_of_fuel, ◌>>=◌, add64}
use masche.Memaccess.Region.{
  Access, readable, allows, MemoryRegion, limit, no_region_available, is_no_region, Found,
}
use masche.Memaccess.Platform.{Platform}

abbrev pub is_error : Option Error → Bool
is_error none = false
is_error (some e) = true

module _ (P : Platform) where
  open P use {World}

  unfoldable pub next_memory_region : ℕ → World → Outcome (Found × World)
  next_memory_region address w = P.next_memory_region address w

  unfoldable pub next_memory_region_access : ℕ → ℕ → Access → World → Outcome (Found × World)
  unfolding next_memory_region
  next_memory_region_access zero address access w = out_of_fuel
  next_memory_region_access (suc rounds) address access w =
      next_memory_region address w >>= λ (r, w').
      elim (is_error r.harderror || is_no_region r.region) [
        | true ↦ done (record r { region = no_region_available }, w')
        | false ↦ elim (allows r.region.access access) [
          | true ↦ done (r, w')
          | false ↦ next_memory_region_access rounds (limit r.region) access w'
        ]
      ]

  module _ (fuel : ℕ) where
    -- The `for` loop: `r1` grows by the readable regions that begin where it ends.
    unfoldable pub extend : ℕ → MemoryRegion → World → Outcome (MemoryRegion × World)
    extend zero r1 w = out_of_fuel
    extend (suc rounds) r1 w = next_memory_region_access fuel (limit r1) readable w >>= λ (r2, w').
        elim (is_error r2.harderror
          || (is_no_region r2.region || ltb (limit r1) r2.region.address)) [
            | true ↦ done (r1, w')
            | false ↦ extend rounds (record r1 { size = add64 r1.size r2.region.size }) w'
          ]

    unfoldable pub next_readable_memory_region : ℕ → World → Outcome (Found × World)
    next_readable_memory_region address w =
        next_memory_region_access fuel address readable w >>= λ (r, w').
        extend fuel r.region w' >>= λ (r1, w2). done (record r { region = r1 }, w2)

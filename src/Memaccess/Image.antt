-- ===== src/Memaccess/Image.antt =====
-- A process whose memory does not change: its regions in the order of their addresses, and what
-- the operations of the system return for it.
pub mod Layout
pub mod Runs
pub mod Gaps
pub mod Rank
use masche.Prelude.{
  ℕ, ◌+◌, ◌≤◌, ◌<◌, ◌≡◌, refl, ◌⊎◌, inl, inr, Bool, true, false, List, [], ◌∷◌, Option, none, some,
  Bytes, ◌==◌, leb, if◌then◌else◌, arith, zero, suc, length, All, Bool-cases, ap, ◌∙◌,
}
use masche.Go.{Outcome, done, word, add64}
use masche.Memaccess.Region.{
  Access, readable, allows, MemoryRegion, limit, no_region_available, is_no_region, Found, Copied,
}
use masche.Memaccess.Platform.{Platform}

-- Where a region ends, as a number that does not wrap around.
abbrev pub end_of : MemoryRegion → ℕ
end_of r = r.address + r.size

-- The regions have bytes, do not overlap, go up, start at `low` or later and end below 2 ^ 64.
abbrev pub IsLayout : ℕ → List MemoryRegion → Type 0
IsLayout low [] = Unit
IsLayout low (r ∷ rs) =
    (low ≤ r.address) × (0 < r.size) × (end_of r < word) × IsLayout (end_of r) rs

-- The regions that do not end at or before an address.
unfoldable pub after : ℕ → List MemoryRegion → List MemoryRegion
after a [] = []
after a (r ∷ rs) = let rest = after a rs in if leb (end_of r) a then rest else r ∷ rs

unfoldable pub first : List MemoryRegion → MemoryRegion
first [] = no_region_available
first (r ∷ rs) = r

unfoldable pub find : Access → List MemoryRegion → MemoryRegion
find access [] = no_region_available
find access (r ∷ rs) = let rest = find access rs in if allows r.access access then r else rest

-- `r` in front of runs: it takes in a run that begins where it ends.
unfoldable pub attach : MemoryRegion → List MemoryRegion → List MemoryRegion
attach r [] = r ∷ []
attach r (s ∷ ss) =
    if s.address == end_of r then record r { size = r.size + s.size } ∷ ss else r ∷ s ∷ ss

-- The readable memory as its maximal runs. A run has the access and the kind of its first region.
unfoldable pub runs : List MemoryRegion → List MemoryRegion
runs [] = []
runs (r ∷ rs) = let rest = runs rs in if allows r.access readable then attach r rest else rest

-- A readable region holds the address.
abbrev pub HoldsAt : List MemoryRegion → ℕ → Type 0
HoldsAt [] x = ⊥
HoldsAt (r ∷ rs) x =
    ((allows r.access readable ≡ true) × (r.address ≤ x) × (x < end_of r)) ⊎ HoldsAt rs x

abbrev pub Covers : List MemoryRegion → MemoryRegion → Type 0
Covers rs r = (x : ℕ) → r.address ≤ x → x < end_of r → HoldsAt rs x

-- The bytes of `n` addresses from `a` on.
unfoldable pub read : (ℕ → ℕ) → ℕ → ℕ → Bytes
read memory a zero = []
read memory a (suc n) = memory a ∷ read memory (a + 1) n

pub length-read : (memory : ℕ → ℕ) (n a : ℕ) → length (read memory a n) ≡ n
unfolding read
length-read memory zero a = refl
length-read memory (suc n) a = ap suc (length-read memory n (a + 1))

abbrev pub found : MemoryRegion → Found
found r = record { region = r; harderror = none; softerrors = [] }

abbrev pub copied : Bytes → Copied
copied b = record { buffer = b; harderror = none; softerrors = [] }

-- The system finds the first of these regions that does not end at or before an address.
pub record Lists (P : Platform) (regions : List MemoryRegion) : Type 0 where
  pub layout : IsLayout 1 regions
  pub next :
      (a : ℕ) (w : P.World) → P.next_memory_region a w ≡ done (found (first (after a regions)), w)

-- Besides, it copies these bytes wherever they are readable.
pub record IsStable (P : Platform) (regions : List MemoryRegion) (memory : ℕ → ℕ) : Type 0 where
  pub lists : Lists P regions
  pub copy :
      (a n : ℕ) (w : P.World)
      → 0 < n
      → ((x : ℕ) → a ≤ x → x < a + n → HoldsAt regions x)
      → P.copy_memory a n w ≡ done (copied (read memory a n), w)

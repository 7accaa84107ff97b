-- ===== src/Memaccess/Region.antt =====
-- The access bits and the memory regions of memaccess/memaccess.go.
use Prim.Native.Nat.{bit_and}
use masche.Prelude.{
  ℕ, Bool, ◌&&◌, [], ◌++◌, Option, List, Bytes, codes, bytes_eq, ◌==◌, if◌then◌else◌,
}
use masche.Go.{Error, add64}

abbrev pub Access : Type 0
Access = ℕ

abbrev pub none_allowed : Access
none_allowed = 0

abbrev pub readable : Access
readable = 1

abbrev pub writable : Access
writable = 2

abbrev pub executable : Access
executable = 4

abbrev pub free : Access
free = 128

-- `(a & wanted) == wanted`
unfoldable pub allows : Access → Access → Bool
allows a wanted = bit_and a wanted == wanted

unfoldable pub access_string : Access → Bytes
unfolding allows
access_string a =
    (if allows a readable then codes "R" else codes "_")
    ++ ((if allows a writable then codes "W" else codes "_")
        ++ ((if allows a executable then codes "X" else codes "_")
            ++ (if allows a free then codes "F" else codes "_")))

pub record MemoryRegion : Type 0 where
  pub address : ℕ
  pub size : ℕ
  pub access : Access
  pub kind : Bytes

-- `r.Address + uintptr(r.Size)`
abbrev pub limit : MemoryRegion → ℕ
limit r = add64 r.address r.size

abbrev pub no_region_available : MemoryRegion
no_region_available = record { address = 0; size = 0; access = none_allowed; kind = [] }

-- `r == NoRegionAvailable`
unfoldable pub is_no_region : MemoryRegion → Bool
is_no_region r = r.address == 0 && (r.size == 0 && (r.access == none_allowed && bytes_eq r.kind []))

-- The results `(region, harderror, softerrors)`.
pub record Found : Type 0 where
  pub region : MemoryRegion
  pub harderror : Option Error
  pub softerrors : List Error

-- The results of `CopyMemory`, with what it put in the buffer.
pub record Copied : Type 0 where
  pub buffer : Bytes
  pub harderror : Option Error
  pub softerrors : List Error

-- ===== src/Memaccess/Calls.antt =====
-- memaccess/memaccess_c_wrapper.go: `nextMemoryRegion` and `copyMemory` on Windows and Darwin. The C
-- functions are a parameter.
pub mod Stable
pub mod Live
use masche.Prelude.{
  ℕ, zero, suc, ◌+◌, ◌^◌, ◌%◌, Bool, true, false, List, [], ◌∷◌, Option, none, some, Bytes, length,
  ◌==◌, if◌then◌else◌,
}
use masche.Go.{Error, Outcome, done, panic, copying, copied_short}
use masche.Cresponse.{Responses, take_response}
use masche.Memaccess.Region.{MemoryRegion, no_region_available, Found, Copied}
use masche.Memaccess.Platform.{Platform}

-- `memory_region_t`, with the text that its `kind` points to.
pub record CRegion : Type 0 where
  pub start_address : ℕ
  pub length_of : ℕ
  pub access : ℕ
  pub kind : Bytes

-- What memaccess.h declares, for one handle, with what the functions leave in the variables that they
-- are given.
pub record MemoryCalls (R : Responses) : Type 0 where
  pub get_next_memory_region : ℕ → R.World → (Bool × CRegion × R.Pointer) × R.World
  -- the buffer's contents and `bytesRead`
  pub copy_process_memory : ℕ → ℕ → R.World → (Bytes × ℕ × R.Pointer) × R.World

unfoldable pub region_of : Bool → CRegion → MemoryRegion
region_of false c = no_region_available
region_of true c = record {
  address = c.start_address;
  size = c.length_of;
  access = c.access % 2 ^ 8;
  kind = c.kind;
}

-- The hard error, from that of the call and from the number of bytes that were read.
unfoldable pub copy_error : ℕ → ℕ → ℕ → Option Error → Option Error
copy_error address n bytes_read (some e) = some (copying n address e)
copy_error address n bytes_read none =
    if n == bytes_read then none else some (copied_short n address bytes_read)

module _ (R : Responses) (C : MemoryCalls R) where
  unfoldable pub next_memory_region : ℕ → R.World → Outcome (Found × R.World)
  unfolding take_response region_of
  next_memory_region address w =
      let ((available, c, response), w1) = C.get_next_memory_region address w in
      let (errors, w2) = take_response R response w1 in
      let region : MemoryRegion = elim errors.harderror [
        | some e ↦ no_region_available
        | none ↦ region_of available c
      ] in
      done (
        record { region = region; harderror = errors.harderror; softerrors = errors.softerrors },
        w2,
      )

  -- The address of the buffer's first byte is taken, so an empty buffer panics.
  unfoldable pub copy_memory : ℕ → ℕ → R.World → Outcome (Copied × R.World)
  unfolding take_response copy_error
  copy_memory address zero w = panic
  copy_memory address (suc m) w =
      let n = suc m in
      let ((buffer, bytes_read, resp), w1) = C.copy_process_memory address n w in
      let (errors, w2) = take_response R resp w1 in
      done (
        record {
          buffer = buffer;
          harderror = copy_error address n bytes_read errors.harderror;
          softerrors = errors.softerrors;
        },
        w2,
      )

  abbrev pub c_platform : Platform
  c_platform = record {
    World = R.World;
    next_memory_region = next_memory_region;
    copy_memory = copy_memory;
  }

-- ===== src/Memaccess/Linux.antt =====
-- memaccess/memaccess_linux.go: the regions are the lines of /proc/<pid>/maps, the memory is
-- /proc/<pid>/mem.
pub mod Stable
pub mod Files
pub mod Errors
use masche.Prelude.{
  ℕ, ◌+◌, ◌^◌, List, [], ◌∷◌, Option, none, some, Bytes, codes, bytes_eq, ◌==◌, leb, ltb,
  if◌then◌else◌, length,
}
use masche.Go.{
  Error, Result, ok, err, Outcome, done, panic, ◌>>=◌, sub64, unrecognised_line, reading,
  negative_offset, short_read,
}
use masche.Go.Lines.{lines}
use masche.Maps.{
  maps_file_path_from_pid, mem_file_path_from_pid, parse_maps_file_memory_limits,
  split_maps_file_entry,
}
use masche.System.{System, Read}
use masche.Memaccess.Region.{
  Access, none_allowed, readable, writable, executable, MemoryRegion, no_region_available, Found,
  Copied,
}
use masche.Memaccess.Platform.{Platform}

abbrev pub vsyscall : Bytes
vsyscall = codes "[vsyscall]"

abbrev flag : ℕ → Access → Access
flag c a = if c == b'-' then none_allowed else a

-- The access of a permission field. It is `none` where `items[1][2]` is out of range.
unfoldable pub access_of : Bytes → Option Access
access_of (r ∷ w ∷ x ∷ rest) = some (flag r readable + flag w writable + flag x executable)
access_of _ = none

-- What one line leads to.
pub data LineTurn : Type 0 where
  fail : Error → LineTurn
  skip : LineTurn
  yield : MemoryRegion → LineTurn
  crash : LineTurn

unfoldable pub region_turn : ℕ → ℕ → Bytes → Option Access → LineTurn
region_turn start end path none = crash
region_turn start end path (some access) =
    yield (record { address = start; size = sub64 end start; access = access; kind = path })

unfoldable pub limits_turn : ℕ → Bytes → Bytes → Result (ℕ × ℕ) → LineTurn
unfolding region_turn
limits_turn address perms path (err e) = fail e
limits_turn address perms path (ok (start, end)) =
    if bytes_eq path vsyscall
    then skip
    else if leb end address
    then skip
    else region_turn start end path (access_of perms)

unfoldable pub line_turn : ℕ → Bytes → List Bytes → LineTurn
line_turn address line (limits ∷ perms ∷ offset ∷ device ∷ inode ∷ path ∷ []) =
    limits_turn address perms path (parse_maps_file_memory_limits limits)
line_turn address line _ = fail (unrecognised_line line)

abbrev failed : Error → Found
failed e = record { region = no_region_available; harderror = some e; softerrors = [] }

-- The loop over the lines of the maps file.
unfoldable pub scan_maps : ℕ → List Bytes → Outcome Found
scan_maps address [] =
    done (record { region = no_region_available; harderror = none; softerrors = [] })
scan_maps address (line ∷ rest) = elim (line_turn address line (split_maps_file_entry line)) [
  | fail e ↦ done (failed e)
  | skip ↦ scan_maps address rest
  | yield r ↦ done (record { region = r; harderror = none; softerrors = [] })
  | crash ↦ panic
]

module _ (sys : System) (pid : ℕ) where
  open sys use {World}

  unfoldable pub next_memory_region : ℕ → World → Outcome (Found × World)
  next_memory_region address w =
      let (opened, w1) = sys.open_file (maps_file_path_from_pid pid) w in
      elim opened [
        | err e ↦ done (failed e, w1)
        | ok file ↦
            let (text, w2) = sys.contents file w1 in
            scan_maps address (lines text.bytes) >>= λ r. done (r, sys.close file w2)
      ]

  abbrev pub unread : ℕ → ℕ → Error → Copied
  unread address n e = record {
    buffer = [];
    harderror = some (reading n address e);
    softerrors = [];
  }

  -- What `ReadAt` returned, as the result of `copyMemory`.
  unfoldable pub copied_of : ℕ → ℕ → Read → Copied
  copied_of address n r = elim r.error [
    | some e ↦ unread address n e
    | none ↦
        if length r.bytes == n
        then record { buffer = r.bytes; harderror = none; softerrors = [] }
        else record { buffer = r.bytes; harderror = some short_read; softerrors = [] }
  ]

  -- `int64(address)` is negative from 2 ^ 63 on, and `ReadAt` refuses a negative offset.
  unfoldable pub copy_memory : ℕ → ℕ → World → Outcome (Copied × World)
  unfolding copied_of
  copy_memory address n w =
      let (opened, w1) = sys.open_file (mem_file_path_from_pid pid) w in
      elim opened [
        | err e ↦ done (unread address n e, w1)
        | ok file ↦
            if ltb address (2 ^ 63)
            then (let (r, w2) = sys.read_at file address n w1 in
                done (copied_of address n r, sys.close file w2))
            else done (unread address n negative_offset, sys.close file w1)
      ]

  abbrev pub linux : Platform
  linux = record {
    World = World;
    next_memory_region = next_memory_region;
    copy_memory = copy_memory;
  }

-- ===== src/Tests/Faults.antt =====
-- Linux processes with memory that cannot be read, with an empty buffer, and with a region at 0.
use masche.Prelude.{
  ℕ, inl, ◌≡◌, refl, Bool, true, false, [], ◌∷◌, List, none, some, codes, bytes_eq, ◌==◌,
  if◌then◌else◌, arith, All,
}
use mathlib.Core.List.{cons-ne-nil}
use masche.Go.{ok, out_of_fuel, external, reading, retries_exceeded, Error}
use masche.Go.Strings.{trim_left}
use masche.Go.Number.{digit}
use masche.Maps.{maps_file_path_from_pid, mem_file_path_from_pid}
use masche.Maps.Split.{render, pad, MapsLine}
use masche.System.{System, Read}
use masche.Memaccess.Region.{MemoryRegion, allows}
use masche.Memaccess.Image.{Lists, after, attach, runs, first, read, copied}
use masche.Memaccess.Linux.{linux, access_of, copy_memory, copied_of, next_memory_region}
use masche.Memaccess.Linux.Stable.{
  Mapping, IsMapping, regions_of, maps_text, Shows, linux-next, linux-copies,
}
use masche.Memaccess.Walk.{walk_loop, walk_region, walk_memory, max_retries}
use masche.Memaccess.Walk.Ends.{walk_region_forever}
use masche.Memaccess.Walk.Retries.{walk_loop_gives_up}
use masche.Memaccess.Walk.Forever.{IsAtZero, walk_memory_forever}
use masche.Memaccess.Sliding.Reuse.{note}
use masche.Tests.Memory.{sys, mappings, memory, stable}

-- `ReadAt` fails at the address 18.
abbrev torn_read : Bool → ℕ → ℕ → Unit {0} → Read × Unit {0}
torn_read file a n w = (
  if a == 18
      then record { bytes = []; error = some (external []) }
      else record { bytes = read memory a n; error = none },
  w,
)

abbrev torn_sys : System
torn_sys = record {
  World = Unit {0};
  File = Bool;
  open_file = sys.open_file;
  contents = sys.contents;
  read_at = torn_read;
  close = sys.close;
  warn = sys.warn;
  read_dir = sys.read_dir;
  eval_symlinks = sys.eval_symlinks;
}

torn_sys-Lists : Lists (linux torn_sys 7) (regions_of mappings)
unfolding next_memory_region
torn_sys-Lists = record { layout = stable.lists.layout; next = stable.lists.next }

abbrev run : MemoryRegion
run = record { address = 16; size = 14; access = 5; kind = codes "/bin/a b" }

abbrev stack : MemoryRegion
stack = record { address = 48; size = 3; access = 3; kind = codes "[stack]" }

abbrev no_read : Error
no_read = reading 2 18 (external [])

-- Behind the address 18 that cannot be read the walk goes on at the first run that does not end
-- at or before 32.
walk_loop_gives_up_example :
    walk_loop (linux torn_sys 7) note 10 2 6 5 (record run { address = 18 }) [] tt []
    ≡ walk_loop
        (linux torn_sys 7)
        note
        10
        2
        0
        max_retries
        stack
        (retries_exceeded 2 18 no_read ∷ [])
        tt
        []
unfolding runs attach after first allows regions_of bytes_eq copy_memory copied_of
walk_loop_gives_up_example =
    walk_loop_gives_up torn_sys-Lists note 10 2 (omega arith) 18 run (stack ∷ []) refl (omega arith)
      no_read record { buffer = []; harderror = some no_read; softerrors = [] } refl refl
      (λ w. refl) (omega arith) 5 0 [] tt []

walk_region_forever_example : walk_region (linux sys 7) note 100 0 run tt [] ≡ out_of_fuel
unfolding copy_memory copied_of read
walk_region_forever_example =
    walk_region_forever (linux sys 7) note 100 run tt [] (λ a b s. refl) (omega arith)
      (λ w. (record { buffer = []; harderror = none; softerrors = [] }, tt, refl, refl))
      (omega arith)

-- A process with one region, of four bytes at address 0.
abbrev zero_line : MapsLine
zero_line = record {
  limits = codes "0-4";
  perms = codes "r--p";
  offset = codes "0";
  device = codes "00:00";
  inode = codes "0";
  path = [];
  padding = 0;
}

abbrev zero_mappings : List Mapping
zero_mappings = record { line = zero_line; start = 0; end = 4; access = 1 } ∷ []

zero_mappings_ok : All IsMapping zero_mappings
unfolding access_of trim_left digit render pad
zero_mappings_ok = (
  record {
    fields_ok = record {
      limits_ok = omega arith;
      perms_ok = omega arith;
      offset_ok = omega arith;
      device_ok = omega arith;
      inode_ok = omega arith;
      path_ok = refl;
    };
    limits_ok = record {
      low = codes "0";
      high = codes "4";
      spelled = refl;
      low_value = (cons-ne-nil _ _, refl, omega arith);
      high_value = (cons-ne-nil _ _, refl, omega arith);
    };
    access_ok = refl;
    line_ok = omega arith;
    in_order = omega arith;
  },
  tt,
)

abbrev zero_sys : System
zero_sys = record {
  World = Unit {0};
  File = Bool;
  open_file = λ path w. (ok (bytes_eq path (maps_file_path_from_pid 7)), w);
  contents = λ file w. (record { bytes = maps_text zero_mappings; error = none }, w);
  read_at = λ file a n w. (record { bytes = read memory a n; error = none }, w);
  close = λ file w. w;
  warn = λ e w. w;
  read_dir = λ path w. (ok [], w);
  eval_symlinks = λ path w. (ok path, w);
}

zero_shown : Shows zero_sys 7 zero_mappings memory
unfolding maps_file_path_from_pid mem_file_path_from_pid bytes_eq
zero_shown = record {
  maps_file = true;
  mem_file = false;
  maps_opens = λ w. refl;
  maps_reads = λ w. refl;
  mem_opens = λ w. refl;
  mem_reads = λ a n w c. refl;
  closes = λ file w. refl;
}

abbrev zero_page : MemoryRegion
zero_page = record { address = 0; size = 4; access = 1; kind = [] }

zero_page-IsAtZero : IsAtZero (linux zero_sys 7) zero_page
unfolding regions_of after first allows bytes_eq
zero_page-IsAtZero =
    let next = linux-next zero_sys 7 zero_mappings memory zero_shown zero_mappings_ok in
    record {
      at_zero = refl;
      has_bytes = omega arith;
      small = omega arith;
      can_read = refl;
      next_in = λ a w h. ground (arith, next a w);
      next_behind = λ a w h. ground (arith, next a w);
      copies = λ a m w p h. (
        copied (read memory a m),
        w,
        linux-copies zero_sys 7 zero_mappings memory zero_shown (omega arith) a m w p
            (λ x l k. inl (refl, omega arith, omega (arith, h, k))),
        refl,
      );
    }

walk_memory_forever_example : walk_memory (linux zero_sys 7) note 1000 2 1 tt [] ≡ out_of_fuel
walk_memory_forever_example =
    walk_memory_forever zero_page-IsAtZero note (λ a b s. refl) 2 (omega arith) 1000 1 tt []
      (omega arith)

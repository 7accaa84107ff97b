-- ===== src/Tests/Files.antt =====
-- Files under /proc: the small process, a maps file with a bad line, and a status file.
use masche.Prelude.{
  ◌≡◌, refl, true, false, ◌&&◌, ◌↔◌, [], ◌∷◌, ◌++◌, none, some, Bytes, codes, bytes_eq, arith, ◌<◌,
  ◌^◌, length,
}
use masche.Go.{ok, err, done, external, unrecognised_line}
use masche.Go.Strings.{count}
use masche.Go.Lines.{newline}
use masche.Maps.{maps_file_path_from_pid, mem_file_path_from_pid}
use masche.System.{System}
use masche.Process.{Named}
use masche.Go.Int.{pos}
use masche.Process.Linux.{name, trim, trim_front, trim_back}
use masche.Process.Linux.Status.{name_lem}
use masche.Memaccess.Region.{no_region_available, Copied}
use masche.Memaccess.Image.{after}
use masche.Memaccess.Linux.{next_memory_region, copy_memory}
use masche.Memaccess.Linux.Stable.{regions_of, maps_text}
use masche.Memaccess.Linux.Errors.{next_memory_region_bad, copy_memory_iff, found_or}
use masche.Listlibs.{list_loaded_libraries, in_slice}
use masche.Listlibs.Loaded.{is_library, Distinct}
use masche.Listlibs.Mapped.{paths_of, list_loaded_libraries_lem}
use masche.Tests.Memory.{sys, mappings, mappings_ok}

abbrev program : Named
program = record { name = codes "/bin/a b"; harderror = none; softerrors = [] }

maps_opens : sys.open_file (maps_file_path_from_pid 7) tt ≡ (ok true, tt)
unfolding maps_file_path_from_pid bytes_eq
maps_opens = refl

mem_opens : sys.open_file (mem_file_path_from_pid 7) tt ≡ (ok false, tt)
unfolding maps_file_path_from_pid mem_file_path_from_pid bytes_eq
mem_opens = refl

list_loaded_libraries_lem_example :
    ((q : Bytes)
      → in_slice q (list_loaded_libraries sys 7 (λ w. (program, w)) tt).0.libraries
        ≡ (in_slice q (paths_of mappings) && is_library (codes "/bin/a b") q))
    × Distinct (list_loaded_libraries sys 7 (λ w. (program, w)) tt).0.libraries
    × ((list_loaded_libraries sys 7 (λ w. (program, w)) tt).0.harderror ≡ none)
    × ((list_loaded_libraries sys 7 (λ w. (program, w)) tt).1 ≡ tt)
list_loaded_libraries_lem_example =
    list_loaded_libraries_lem sys 7 (λ w. (program, w)) true mappings none program tt tt tt tt
      maps_opens refl refl refl mappings_ok

copy_memory_iff_example :
    (c : Copied) × (w : Unit {0}) × (copy_memory sys 7 20 4 tt ≡ done (c, w))
    × ((c.harderror ≡ none) ↔ (
        (20 < 2 ^ 63)
        × ((sys.read_at false 20 4 tt).0.error ≡ none)
        × (length (sys.read_at false 20 4 tt).0.bytes ≡ 4)))
copy_memory_iff_example = copy_memory_iff sys 7 false 20 4 tt tt mem_opens

-- A maps file whose last line is not one.
abbrev cut_sys : System
cut_sys = record {
  World = Unit {0};
  File = Unit {0};
  open_file = λ path w. (ok tt, w);
  contents = λ file w. (
    record { bytes = maps_text mappings ++ (codes "30-33 rw" ++ newline ∷ []); error = none },
    w,
  );
  read_at = λ file a n w. (record { bytes = []; error = none }, w);
  close = λ file w. w;
  warn = λ e w. w;
  read_dir = λ path w. (ok [], w);
  eval_symlinks = λ path w. (ok path, w);
}

next_memory_region_bad_example :
    next_memory_region cut_sys 7 100 tt
    ≡ done (
      record {
        region = no_region_available;
        harderror = some (unrecognised_line (codes "30-33 rw"));
        softerrors = [];
      },
      tt,
    )
unfolding found_or after regions_of bytes_eq count
next_memory_region_bad_example =
    next_memory_region_bad cut_sys 7 tt 100 mappings (codes "30-33 rw") [] none tt tt tt refl refl
      mappings_ok (omega arith) (omega arith)

-- A thread of the kernel.
abbrev thread_sys : System
thread_sys = record {
  World = Unit {0};
  File = Unit {0};
  open_file = λ path w. (ok tt, w);
  contents = λ file w.
      (record { bytes = codes "Name:\tkthreadd\nState:\tS (sleeping)\n"; error = none }, w);
  read_at = λ file a n w. (record { bytes = []; error = none }, w);
  close = λ file w. w;
  warn = λ e w. w;
  read_dir = λ path w. (ok [], w);
  eval_symlinks = λ path w. (err (external (codes "no such file or directory")), w);
}

name_lem_example :
    name thread_sys (pos 2) tt
    ≡ (record { name = codes "[kthreadd]"; harderror = none; softerrors = [] }, tt)
unfolding trim trim_front trim_back
name_lem_example =
    name_lem thread_sys (pos 2) tt (codes "kthreadd") (codes "State:\tS (sleeping)\n")
      (external (codes "no such file or directory")) none tt tt tt tt refl refl refl (omega arith)
      (omega arith) (omega arith) refl

-- ===== src/Tests/Memory.antt =====
-- A small process: three readable regions, two of which meet, one that is not readable, and the
-- page of the kernel.
use mathlib.Core.List.{cons-ne-nil}
use masche.Go.Strings.{trim_left}
use masche.Go.Number.{digit}
use masche.Prelude.{
  All, ℕ, ◌≡◌, refl, Bool, true, false, List, [], ◌∷◌, none, codes, bytes_eq, arith,
}
use masche.Go.{ok}
use masche.Maps.{maps_file_path_from_pid, mem_file_path_from_pid}
use masche.Maps.Split.{render, pad, MapsLine}
use masche.System.{System}
use masche.Memaccess.Region.{MemoryRegion}
use masche.Memaccess.Image.{IsLayout, IsStable, read}
use masche.Memaccess.Linux.{linux, access_of}
use masche.Memaccess.Linux.Stable.{
  Mapping, IsMapping, regions_of, maps_text, Shows, InUserSpace, linux-IsStable,
}

abbrev code_line : MapsLine
code_line = record {
  limits = codes "10-14";
  perms = codes "r-xp";
  offset = codes "0";
  device = codes "08:01";
  inode = codes "7";
  path = codes "/bin/a b";
  padding = 3;
}

abbrev heap_line : MapsLine
heap_line = record {
  limits = codes "14-1e";
  perms = codes "rw-p";
  offset = codes "0";
  device = codes "00:00";
  inode = codes "0";
  path = codes "[heap]";
  padding = 2;
}

abbrev guard_line : MapsLine
guard_line = record {
  limits = codes "20-24";
  perms = codes "---p";
  offset = codes "0";
  device = codes "00:00";
  inode = codes "0";
  path = [];
  padding = 0;
}

abbrev stack_line : MapsLine
stack_line = record {
  limits = codes "30-33";
  perms = codes "rw-p";
  offset = codes "0";
  device = codes "00:00";
  inode = codes "0";
  path = codes "[stack]";
  padding = 1;
}

abbrev kernel_line : MapsLine
kernel_line = record {
  limits = codes "ffffffffff600000-ffffffffff601000";
  perms = codes "--xp";
  offset = codes "0";
  device = codes "00:00";
  inode = codes "0";
  path = codes "[vsyscall]";
  padding = 1;
}

abbrev pub mappings : List Mapping
mappings =
    record { line = code_line; start = 0x10; end = 0x14; access = 5 }
    ∷ record { line = heap_line; start = 0x14; end = 0x1e; access = 3 }
    ∷ record { line = guard_line; start = 0x20; end = 0x24; access = 0 }
    ∷ record { line = stack_line; start = 0x30; end = 0x33; access = 3 }
    ∷ record {
      line = kernel_line;
      start = 0xffffffffff600000;
      end = 0xffffffffff601000;
      access = 4;
    }
    ∷ []

abbrev pub memory : ℕ → ℕ
memory a = a

abbrev regions : List MemoryRegion
regions =
    record { address = 16; size = 4; access = 5; kind = codes "/bin/a b" }
    ∷ record { address = 20; size = 10; access = 3; kind = codes "[heap]" }
    ∷ record { address = 32; size = 4; access = 0; kind = [] }
    ∷ record { address = 48; size = 3; access = 3; kind = codes "[stack]" }
    ∷ []

regions_listed : regions_of mappings ≡ regions
unfolding regions_of bytes_eq
regions_listed = refl

-- A system with two files that never change.
abbrev pub sys : System
sys = record {
  World = Unit {0};
  File = Bool;
  open_file = λ path w. (ok (bytes_eq path (maps_file_path_from_pid 7)), w);
  contents = λ file w. (record { bytes = maps_text mappings; error = none }, w);
  read_at = λ file a n w. (record { bytes = read memory a n; error = none }, w);
  close = λ file w. w;
  warn = λ e w. w;
  read_dir = λ path w. (ok [], w);
  eval_symlinks = λ path w. (ok path, w);
}

shown : Shows sys 7 mappings memory
unfolding maps_file_path_from_pid mem_file_path_from_pid bytes_eq
shown = record {
  maps_file = true;
  mem_file = false;
  maps_opens = λ w. refl;
  maps_reads = λ w. refl;
  mem_opens = λ w. refl;
  mem_reads = λ a n w c. refl;
  closes = λ file w. refl;
}

code_ok : IsMapping record { line = code_line; start = 0x10; end = 0x14; access = 5 }
unfolding access_of trim_left digit render pad
code_ok = record {
  fields_ok = record {
    limits_ok = omega arith;
    perms_ok = omega arith;
    offset_ok = omega arith;
    device_ok = omega arith;
    inode_ok = omega arith;
    path_ok = refl;
  };
  limits_ok = record {
    low = codes "10";
    high = codes "14";
    spelled = refl;
    low_value = (cons-ne-nil _ _, refl, omega arith);
    high_value = (cons-ne-nil _ _, refl, omega arith);
  };
  access_ok = refl;
  line_ok = omega arith;
  in_order = omega arith;
}

heap_ok : IsMapping record { line = heap_line; start = 0x14; end = 0x1e; access = 3 }
unfolding access_of trim_left digit render pad
heap_ok = record {
  fields_ok = record {
    limits_ok = omega arith;
    perms_ok = omega arith;
    offset_ok = omega arith;
    device_ok = omega arith;
    inode_ok = omega arith;
    path_ok = refl;
  };
  limits_ok = record {
    low = codes "14";
    high = codes "1e";
    spelled = refl;
    low_value = (cons-ne-nil _ _, refl, omega arith);
    high_value = (cons-ne-nil _ _, refl, omega arith);
  };
  access_ok = refl;
  line_ok = omega arith;
  in_order = omega arith;
}

guard_ok : IsMapping record { line = guard_line; start = 0x20; end = 0x24; access = 0 }
unfolding access_of trim_left digit render pad
guard_ok = record {
  fields_ok = record {
    limits_ok = omega arith;
    perms_ok = omega arith;
    offset_ok = omega arith;
    device_ok = omega arith;
    inode_ok = omega arith;
    path_ok = refl;
  };
  limits_ok = record {
    low = codes "20";
    high = codes "24";
    spelled = refl;
    low_value = (cons-ne-nil _ _, refl, omega arith);
    high_value = (cons-ne-nil _ _, refl, omega arith);
  };
  access_ok = refl;
  line_ok = omega arith;
  in_order = omega arith;
}

stack_ok : IsMapping record { line = stack_line; start = 0x30; end = 0x33; access = 3 }
unfolding access_of trim_left digit render pad
stack_ok = record {
  fields_ok = record {
    limits_ok = omega arith;
    perms_ok = omega arith;
    offset_ok = omega arith;
    device_ok = omega arith;
    inode_ok = omega arith;
    path_ok = refl;
  };
  limits_ok = record {
    low = codes "30";
    high = codes "33";
    spelled = refl;
    low_value = (cons-ne-nil _ _, refl, omega arith);
    high_value = (cons-ne-nil _ _, refl, omega arith);
  };
  access_ok = refl;
  line_ok = omega arith;
  in_order = omega arith;
}

kernel_ok :
    IsMapping record {
      line = kernel_line;
      start = 0xffffffffff600000;
      end = 0xffffffffff601000;
      access = 4;
    }
unfolding access_of trim_left digit render pad
kernel_ok = record {
  fields_ok = record {
    limits_ok = omega arith;
    perms_ok = omega arith;
    offset_ok = omega arith;
    device_ok = omega arith;
    inode_ok = omega arith;
    path_ok = refl;
  };
  limits_ok = record {
    low = codes "ffffffffff600000";
    high = codes "ffffffffff601000";
    spelled = refl;
    low_value = (cons-ne-nil _ _, refl, omega arith);
    high_value = (cons-ne-nil _ _, refl, omega arith);
  };
  access_ok = refl;
  line_ok = omega arith;
  in_order = omega arith;
}

pub mappings_ok : All IsMapping mappings
mappings_ok = (code_ok, (heap_ok, (guard_ok, (stack_ok, (kernel_ok, tt)))))

regions_laid_out : IsLayout 1 (regions_of mappings)
regions_laid_out = rw (regions_listed) (omega arith)

regions-InUserSpace : InUserSpace (regions_of mappings)
regions-InUserSpace = rw (regions_listed) (omega arith)

pub stable : IsStable (linux sys 7) (regions_of mappings) memory
stable = linux-IsStable sys 7 mappings memory shown mappings_ok regions_laid_out regions-InUserSpace

linux-IsStable_example : IsStable (linux sys 7) (regions_of mappings) memory
linux-IsStable_example =
    linux-IsStable sys 7 mappings memory shown mappings_ok regions_laid_out regions-InUserSpace

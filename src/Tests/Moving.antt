-- ===== src/Tests/Moving.antt =====
-- A Linux process whose maps file changes with every lookup.
use masche.Prelude.{ℕ, ◌+◌, ◌%◌, Bool, ◌==◌, if◌then◌else◌, [], ◌∷◌, none, Bytes, codes, bytes_eq}
use masche.Go.{ok}
use masche.Maps.{maps_file_path_from_pid}
use masche.Maps.Split.{MapsLine}
use masche.System.{System}
use masche.Memaccess.Image.{read}
use masche.Memaccess.Linux.Stable.{Mapping, maps_text}
use masche.Memaccess.Walk.Ends.{Ends}
use masche.Tests.Memory.{memory}

abbrev line_of : Bytes → MapsLine
line_of limits = record {
  limits = limits;
  perms = codes "rw-p";
  offset = codes "0";
  device = codes "00:00";
  inode = codes "0";
  path = [];
  padding = 0;
}

abbrev narrow : Mapping
narrow = record { line = line_of (codes "10-14"); start = 16; end = 20; access = 3 }

abbrev wide : Mapping
wide = record { line = line_of (codes "c-1a"); start = 12; end = 26; access = 3 }

-- The world counts the readings of the maps file; its line is narrow and wide by turns.
abbrev mapping_at : ℕ → Mapping
mapping_at w = if w % 2 == 0 then narrow else wide

abbrev turning_sys : System
turning_sys = record {
  World = ℕ;
  File = Bool;
  open_file = λ path w. (ok (bytes_eq path (maps_file_path_from_pid 7)), w);
  contents = λ file w. (record { bytes = maps_text (mapping_at w ∷ []); error = none }, w + 1);
  read_at = λ file a n w. (record { bytes = read memory a n; error = none }, w);
  close = λ file w. w;
  warn = λ e w. w;
  read_dir = λ path w. (ok [], w);
  eval_symlinks = λ path w. (ok path, w);
}

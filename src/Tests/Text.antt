-- ===== src/Tests/Text.antt =====
-- Lines of a maps file.
use mathlib.Core.Logic.{◌↔◌}
use masche.Prelude.{drop, ◌≡◌, refl, [], ◌∷◌, codes, arith}
use masche.Go.{ok}
use masche.Go.Strings.{trim_left}
use masche.Memaccess.Region.{MemoryRegion}
use masche.Memaccess.Print.{marshal_json, marshal_json_lem}
use masche.Maps.{parse_hex, split_maps_file_entry, parse_maps_file_memory_limits}
use masche.Maps.Split.{MapsLine, IsMapsLine, render, pad, split-render}
use masche.Maps.Limits.{Limits, parse_maps_file_memory_limits_iff}

-- A path with spaces, behind padding.
abbrev line : MapsLine
line = record {
  limits = codes "10-1f";
  perms = codes "r-xp";
  offset = codes "0";
  device = codes "08:01";
  inode = codes "7";
  path = codes "/lib/my lib.so";
  padding = 3;
}

line_ok : IsMapsLine line
unfolding trim_left
line_ok = record {
  limits_ok = omega arith;
  perms_ok = omega arith;
  offset_ok = omega arith;
  device_ok = omega arith;
  inode_ok = omega arith;
  path_ok = refl;
}

split-render_example :
    split_maps_file_entry (codes "10-1f r-xp 0 08:01 7    /lib/my lib.so")
    ≡ codes "10-1f"
      ∷ codes "r-xp"
      ∷ codes "0"
      ∷ codes "08:01"
      ∷ codes "7"
      ∷ codes "/lib/my lib.so"
      ∷ []
unfolding render pad
split-render_example = split-render line line_ok

parse_maps_file_memory_limits_iff_example :
    (parse_maps_file_memory_limits (codes "10-1f") ≡ ok (16, 31)) ↔ Limits (codes "10-1f") 16 31
parse_maps_file_memory_limits_iff_example = parse_maps_file_memory_limits_iff (codes "10-1f") 16 31

abbrev region : MemoryRegion
region = record { address = 0x7f00; size = 0x1000; access = 5; kind = codes "/bin/a" }

marshal_json_lem_example :
    (parse_hex (drop 2 (marshal_json region).address) ≡ ok 0x7f00)
    × (parse_hex (drop 2 (marshal_json region).size) ≡ ok 0x1000)
marshal_json_lem_example = marshal_json_lem region (omega arith) (omega arith)

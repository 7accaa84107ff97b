-- ===== src/Memaccess/Print.antt =====
-- How a region is printed: `MemoryRegion.String` and `MarshalJSON` of memaccess/memaccess.go.
use masche.Prelude.{◌<◌, ◌≡◌, refl, ◌∷◌, ◌++◌, Bytes, codes, drop, arith}
use masche.Go.{ok, word}
use masche.Go.Number.Hex.{hex, hex-Spells}
use masche.Maps.{parse_hex, parse_maps_file_memory_limits}
use masche.Maps.Limits.{Spells-parse_hex, parse_maps_file_memory_limits_iff}
use masche.Memaccess.Region.{access_string, MemoryRegion, limit}

-- `%x-%x`, the two numbers that `String` prints.
unfoldable pub limits_string : MemoryRegion → Bytes
limits_string m = hex m.address ++ b'-' ∷ hex (limit m)

-- `MemoryRegion[%x-%x %v %v]`
unfoldable pub region_string : MemoryRegion → Bytes
unfolding limits_string
region_string m =
    codes "MemoryRegion["
    ++ (limits_string m
        ++ (codes " " ++ (access_string m.access ++ (codes " " ++ (m.kind ++ codes "]")))))

-- The struct that `MarshalJSON` gives to `json.Marshal`: its own fields hide those of the region.
pub record Marshalled : Type 0 where
  pub address : Bytes
  pub size : Bytes
  pub access : Bytes
  pub kind : Bytes

unfoldable pub marshal_json : MemoryRegion → Marshalled
marshal_json mr = record {
  address = codes "0x" ++ hex mr.address;
  size = codes "0x" ++ hex mr.size;
  access = access_string mr.access;
  kind = mr.kind;
}

-- For an address and a size below 2 ^ 64, the fields `address` and `size` that `MarshalJSON`
-- prints, without their `0x`, are read back by `ParseUint` in base 16 as the address and the size.
pub marshal_json_lem :
    (mr : MemoryRegion)
    → mr.address < word
    → mr.size < word
    → (parse_hex (drop 2 (marshal_json mr).address) ≡ ok mr.address)
      × (parse_hex (drop 2 (marshal_json mr).size) ≡ ok mr.size)
unfolding marshal_json
marshal_json_lem mr a s = (
  Spells-parse_hex (hex mr.address) mr.address (hex-Spells mr.address a),
  Spells-parse_hex (hex mr.size) mr.size (hex-Spells mr.size s),
)

limits_string_lem :
    (m : MemoryRegion)
    → m.address < word
    → parse_maps_file_memory_limits (limits_string m) ≡ ok (m.address, limit m)
unfolding limits_string
limits_string_lem m a =
    (parse_maps_file_memory_limits_iff (limits_string m) m.address (limit m)).1 record {
      low = hex m.address;
      high = hex (limit m);
      spelled = refl;
      low_value = hex-Spells m.address a;
      high_value = hex-Spells (limit m) (omega arith);
    }

-- For an address below 2 ^ 64, `String` prints a text that has between `MemoryRegion[` and the next
-- space limits which `ParseMapsFileMemoryLimits` reads back as the address and the end of the
-- region.
pub region_string_lem :
    (m : MemoryRegion)
    → m.address < word
    → (limits : Bytes) × (rest : Bytes) × (region_string m
        ≡ codes "MemoryRegion[" ++ (limits ++ (codes " " ++ rest)))
      × (parse_maps_file_memory_limits limits ≡ ok (m.address, limit m))
unfolding region_string
region_string_lem m a = (
  limits_string m,
  access_string m.access ++ (codes " " ++ (m.kind ++ codes "]")),
  refl,
  limits_string_lem m a,
)

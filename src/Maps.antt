-- ===== src/Maps.antt =====
-- common/common_linux.go: the paths of a process under /proc and the lines of its maps file.
pub mod Split
pub mod Limits
use mathlib.Core.List.{cons-ne-nil}
use masche.Prelude.{
  ℕ, zero, suc, ◌+◌, ◌≡◌, refl, List, [], ◌∷◌, ◌++◌, Option, none, some, Bytes, codes, drop, take,
}
use masche.Go.{Error, Result, ok, err, num_syntax, num_range, invalid_limits}
use masche.Go.Strings.{index, split, trim_left}
use masche.Go.Number.{Scanned, number, syntax, range, parse_uint, decimal, digits}

abbrev pub space : ℕ
space = b' '

-- `filepath.Join("/proc", pid, …)`, of parts that need no cleaning.
unfoldable pub proc_path : Bytes → Bytes → Bytes
proc_path pid name = codes "/proc/" ++ (pid ++ (codes "/" ++ name))

unfoldable pub maps_file_path_from_pid : ℕ → Bytes
unfolding proc_path decimal digits
maps_file_path_from_pid pid = proc_path (decimal pid) (codes "maps")

unfoldable pub mem_file_path_from_pid : ℕ → Bytes
unfolding proc_path decimal digits
mem_file_path_from_pid pid = proc_path (decimal pid) (codes "mem")

-- A failure of `ParseUint` as its error value.
unfoldable pub parse_hex : Bytes → Result ℕ
parse_hex s = elim (parse_uint s) [
  | number n ↦ ok n
  | syntax ↦ err (num_syntax s)
  | range ↦ err (num_range s)
]

unfoldable pub both : Result ℕ → Result ℕ → Result (ℕ × ℕ)
both (err e) r = err e
both (ok start) (err e) = err e
both (ok start) (ok end) = ok (start, end)

-- Behind `len(fields) != 2`.
unfoldable pub limits_of : List Bytes → Result (ℕ × ℕ)
limits_of (a ∷ b ∷ []) = both (parse_hex a) (parse_hex b)
limits_of _ = err invalid_limits

unfoldable pub parse_maps_file_memory_limits : Bytes → Result (ℕ × ℕ)
parse_maps_file_memory_limits limits = limits_of (split limits b'-')

-- The loop, with the rounds left and the parts so far.
unfoldable pub split_loop : ℕ → Bytes → List Bytes → List Bytes
split_loop zero entry res = res ++ trim_left entry space ∷ []
split_loop (suc n) entry res = elim (index entry space) [
  | some i ↦ split_loop n (drop (suc i) entry) (res ++ take i entry ∷ [])
  | none ↦ res ++ (entry ∷ [] ∷ [])
]

unfoldable pub split_maps_file_entry : Bytes → List Bytes
split_maps_file_entry entry = split_loop 5 entry []

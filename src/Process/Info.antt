-- ===== src/Process/Info.antt =====
-- process/process_info_linux.go and process/process_info.go: the status file of a process, read into a `linuxProcessInfo`.
pub mod Cached
pub mod Parsed
pub mod Wmic
pub mod Tasklist
pub mod Windows
use masche.Prelude.{
  ℕ, Bool, true, false, ◌||◌, List, [], ◌∷◌, ◌++◌, Option, none, some, Bytes, codes, bytes_eq, ◌==◌,
  if◌then◌else◌,
}
use masche.Go.{Error, Result, ok, err, no_integer, no_status_file, status_unread, status_unparsed}
use masche.Go.Int.{ℤ, pos}
use masche.Go.Strings.{split}
use masche.Go.Strings.Space.{trim_space, fields, first_or, ended_lines}
use masche.Go.Number.Decimal.{atoi, decimal_ℤ}
use masche.Go.Lines.{newline}
use masche.Maps.{proc_path}
use masche.System.{System}
use masche.Process.Linux.{process_exe}

-- The fields of the struct, as package reflect names them.
pub data Field : Type 0 where
  id command user_id user_name group_id group_name parent_process_id executable : Field

pub record LinuxProcessInfo : Type 0 where
  pub id : ℤ
  pub command : Bytes
  pub user_id : ℤ
  pub user_name : Bytes
  pub group_id : ℤ
  pub group_name : Bytes
  pub parent_process_id : ℤ
  pub executable : Bytes

abbrev pub no_info : LinuxProcessInfo
no_info = record {
  id = pos 0;
  command = [];
  user_id = pos 0;
  user_name = [];
  group_id = pos 0;
  group_name = [];
  parent_process_id = pos 0;
  executable = [];
}

-- The tag `statusFileKey`, which is empty where there is none.
unfoldable pub tag : Field → Bytes
tag id = codes "Pid"
tag command = codes "Name"
tag user_id = codes "Uid"
tag user_name = []
tag group_id = codes "Gid"
tag group_name = []
tag parent_process_id = codes "PPid"
tag executable = []

abbrev pub all_fields : List Field
all_fields =
    id ∷ command ∷ user_id ∷ user_name ∷ group_id ∷ group_name ∷ parent_process_id ∷ executable ∷ []

unfoldable pub matching : Bytes → List Field → List Field
unfolding tag
matching key [] = []
matching key (f ∷ fs) =
    let rest = matching key fs in if bytes_eq (tag f) key then f ∷ rest else rest

-- `FieldByNameFunc`: several fields that match cancel each other.
unfoldable pub only : List Field → Option Field
only (f ∷ []) = some f
only _ = none

unfoldable pub field_for : Bytes → Option Field
unfolding matching only
field_for key = only (matching key all_fields)

-- `keyToFieldName`.
abbrev pub Cache : Type 0
Cache = List (Bytes × Field)

unfoldable pub lookup : Bytes → Cache → Option Field
lookup key [] = none
lookup key ((k, f) ∷ cache) = let rest = lookup key cache in if bytes_eq k key then some f else rest

-- The part of `getFieldNameForKey` behind the read of the cache; `none` is the empty name.
unfoldable pub remember : Bytes → Option Field → Cache → Option Field × Cache
remember key none cache = (none, cache)
remember key (some f) cache = (some f, (key, f) ∷ cache)

unfoldable pub get_field_name_for_key : Bytes → Cache → Option Field × Cache
unfolding remember
get_field_name_for_key key cache = elim (lookup key cache) [
  | some f ↦ (some f, cache)
  | none ↦ remember key (field_for key) cache
]

-- The values that a field can hold.
pub data Value : Type 0 where
  text : Bytes → Value
  number : ℤ → Value

-- `t.Name()` of the fields: a string, or else an `int`.
unfoldable pub is_string : Field → Bool
is_string command = true
is_string user_name = true
is_string group_name = true
is_string executable = true
is_string _ = false

unfoldable pub string_to_reflect_value : Bytes → Bool → Result Value
string_to_reflect_value value true = ok (text value)
string_to_reflect_value value false = elim (atoi value) [
  | ok n ↦ ok (number n)
  | err e ↦ err (no_integer value e)
]

-- `vfield.Set(val)`; a value of the other kind is never set.
unfoldable pub set_field : Field → Value → LinuxProcessInfo → LinuxProcessInfo
set_field id (number n) lpi = record lpi { id = n }
set_field command (text s) lpi = record lpi { command = s }
set_field user_id (number n) lpi = record lpi { user_id = n }
set_field user_name (text s) lpi = record lpi { user_name = s }
set_field group_id (number n) lpi = record lpi { group_id = n }
set_field group_name (text s) lpi = record lpi { group_name = s }
set_field parent_process_id (number n) lpi = record lpi { parent_process_id = n }
set_field executable (text s) lpi = record lpi { executable = s }
set_field _ _ lpi = lpi

-- The key and the value of a line, or `none` where the loop goes on with the next line.
unfoldable pub status_components : List Bytes → Option (Bytes × Bytes)
status_components (k ∷ v ∷ []) =
    let value = trim_space v in some (trim_space k, first_or value (fields value))
status_components _ = none

-- The loop of `parseStatusToStruct`, with the cache and the struct so far.
unfoldable pub parse_loop :
    List Bytes → Cache → LinuxProcessInfo → Option Error × Cache × LinuxProcessInfo
parse_loop [] cache lpi = (none, cache, lpi)
parse_loop (line ∷ rest) cache lpi = elim (status_components (split line b':')) [
  | none ↦ parse_loop rest cache lpi
  | some (key, value) ↦
      let (field, cache') = get_field_name_for_key key cache in
      elim field [
        | none ↦ parse_loop rest cache' lpi
        | some f ↦ elim (string_to_reflect_value value (is_string f)) [
          | err e ↦ (some e, cache', lpi)
          | ok v ↦ parse_loop rest cache' (set_field f v lpi)
        ]
      ]
]

unfoldable pub parse_status_to_struct :
    Bytes → Cache → LinuxProcessInfo → Option Error × Cache × LinuxProcessInfo
parse_status_to_struct status cache lpi = parse_loop (ended_lines status []) cache lpi

module _ (sys : System) where
  open sys use {World}

  -- Behind the parse: the program that the process runs, and the error of its link.
  unfoldable pub with_executable :
      ℤ → LinuxProcessInfo → World → LinuxProcessInfo × Option Error × World
  with_executable pid lpi w =
      let (exe, w') = process_exe sys pid w in
      elim exe [
        | ok path ↦ (record lpi { executable = path }, none, w')
        | err e ↦ (record lpi { executable = [] }, some e, sys.warn e w')
      ]

  unfoldable pub process_info :
      ℤ → Cache → World → (LinuxProcessInfo × Option Error) × Cache × World
  process_info pid cache w =
      let path = proc_path (decimal_ℤ pid) (codes "status") in
      let (opened, w1) = sys.open_file path w in
      elim opened [
        | err e ↦ ((no_info, some (no_status_file pid path e)), cache, w1)
        | ok file ↦
            let (status, w2) = sys.contents file w1 in
            elim status.error [
              | some e ↦ ((no_info, some (status_unread pid path e)), cache, sys.close file w2)
              | none ↦
                  let (error, cache', lpi) = parse_status_to_struct status.bytes cache no_info in
                  elim error [
                    | some e ↦ ((no_info, some (status_unparsed path e)), cache', sys.close file w2)
                    | none ↦
                        let (info, link_error, w3) = with_executable pid lpi w2 in
                        ((info, link_error), cache', sys.close file w3)
                  ]
            ]
      ]

-- ===== src/Tests/Status.antt =====
-- The status file of a process, and the processes of a system.
use masche.Prelude.{
  ℕ, ◌≡◌, refl, Bool, true, false, List, [], ◌∷◌, none, some, Bytes, codes, bytes_eq, if◌then◌else◌,
  arith, keep,
}
use mathlib.Core.List.{cons-ne-nil}
use masche.Go.{ok, err, exe_link, open_failed, permission_denied, external}
use masche.Go.Int.{ℤ, pos, uint}
use masche.Go.Number.{decimal, digits, digit}
use masche.Go.Number.Decimal.{decimal_ℤ, atoi, scan_decimal, unsigned, signed, int_of}
use masche.Go.Strings.Space.{
  is_space, is_space2, is_space3, is_lead, space_width, skip_from, skip_space, trim_end, trim_space,
}
use masche.Maps.{mem_file_path_from_pid, proc_path}
use masche.System.{System}
use masche.Process.{open_all, sort}
use masche.Process.Linux.{linux_host, pids_of, process_exe}
use masche.Process.Linux.Listing.{linux-open_all, refused, is_ok}
use masche.Process.Info.{
  id, field_for, matching, only, tag, remember, lookup, is_string, string_to_reflect_value,
  set_field, no_info, process_info, parse_status_to_struct, LinuxProcessInfo,
}
use masche.Process.Info.Cached.{
  IsCache, IsRight, At, missed, returned, idle, miss, write, pick, start, next, Reach-IsCache,
  update,
}
use masche.Process.Info.Parsed.{
  Entry, IsEntry, status_text, set_all, parse_status_to_struct_lem, process_info_no_exe,
}

abbrev name_entry : Entry
name_entry = record { key = codes "Name"; value = codes "sh"; rest = [] }

abbrev uid_entry : Entry
uid_entry = record { key = codes "Uid"; value = codes "17"; rest = codes "\t17\t0" }

abbrev state_entry : Entry
state_entry = record { key = codes "State"; value = codes "S"; rest = codes " (sleeping)" }

name_entry-IsEntry : IsEntry name_entry
name_entry-IsEntry = record {
  key_ok = (
    omega arith,
    omega arith,
    unfold trim_space trim_end skip_space skip_from space_width is_space is_space2 is_space3 in
        refl,
  );
  value_ok = (omega arith, unfold is_lead is_space in (refl, (refl, tt)), cons-ne-nil _ _);
  rest_ok = (tt, tt, tt);
}

uid_entry-IsEntry : IsEntry uid_entry
uid_entry-IsEntry = record {
  key_ok = (
    omega arith,
    omega arith,
    unfold trim_space trim_end skip_space skip_from space_width is_space is_space2 is_space3 in
        refl,
  );
  value_ok = (omega arith, unfold is_lead is_space in (refl, (refl, tt)), cons-ne-nil _ _);
  rest_ok = (omega arith, omega arith, unfold is_space in refl);
}

state_entry-IsEntry : IsEntry state_entry
state_entry-IsEntry = record {
  key_ok = (
    omega arith,
    omega arith,
    unfold trim_space trim_end skip_space skip_from space_width is_space is_space2 is_space3 in
        refl,
  );
  value_ok = (omega arith, unfold is_lead is_space in (refl, tt), cons-ne-nil _ _);
  rest_ok = (omega arith, omega arith, unfold is_space in refl);
}

abbrev entries : List Entry
entries = name_entry ∷ uid_entry ∷ state_entry ∷ []

abbrev shell : LinuxProcessInfo
shell = record no_info { command = codes "sh"; user_id = pos 17 }

shell_set : set_all entries no_info ≡ ok shell
unfolding set_all field_for matching only tag bytes_eq is_string string_to_reflect_value set_field
    atoi scan_decimal unsigned signed int_of digit
shell_set = refl

parse_status_to_struct_lem_example :
    ((parse_status_to_struct (status_text entries) [] no_info).0 ≡ none)
    × IsCache (parse_status_to_struct (status_text entries) [] no_info).1
    × ((parse_status_to_struct (status_text entries) [] no_info).2 ≡ shell)
unfolding set_all field_for matching only tag bytes_eq is_string string_to_reflect_value set_field
    atoi scan_decimal unsigned signed int_of digit
parse_status_to_struct_lem_example =
    parse_status_to_struct_lem entries
      (name_entry-IsEntry, (uid_entry-IsEntry, (state_entry-IsEntry, tt))) [] no_info tt

-- The pid 12 has no memory that may be read, and no link is followed.
abbrev proc_sys : System
proc_sys = record {
  World = Unit {0};
  File = Unit {0};
  open_file =
      λ path w. (if bytes_eq path (mem_file_path_from_pid 12) then err (external []) else ok tt, w);
  contents = λ file w. (record { bytes = status_text entries; error = none }, w);
  read_at = λ file a n w. (record { bytes = []; error = none }, w);
  close = λ file w. w;
  warn = λ e w. w;
  read_dir = λ path w. (ok (codes "12" ∷ codes "3" ∷ codes "self" ∷ []), w);
  eval_symlinks = λ path w. (err (external []), w);
}

process_info_no_exe_example :
    (process_info proc_sys (pos 3) [] tt).0
    ≡ (shell, some (exe_link (proc_path (codes "3") (codes "exe")) (external [])))
unfolding proc_path decimal_ℤ process_exe decimal digits digit bytes_eq mem_file_path_from_pid
process_info_no_exe_example =
    process_info_no_exe proc_sys (pos 3) tt entries [] shell
      (exe_link (proc_path (codes "3") (codes "exe")) (external [])) tt tt tt tt
      (name_entry-IsEntry, (uid_entry-IsEntry, (state_entry-IsEntry, tt))) tt shell_set refl refl
      refl

abbrev not_twelve : ℤ → Bool
not_twelve pid =
    if bytes_eq (mem_file_path_from_pid (uint pid)) (mem_file_path_from_pid 12) then false else true

opens_same :
    (pid : ℤ) (w : Unit {0})
    → is_ok (proc_sys.open_file (mem_file_path_from_pid (uint pid)) w).0 ≡ not_twelve pid
opens_same pid w = ground arith

linux-open_all_example : (open_all (linux_host proc_sys) tt).0 ≡ record {
  processes = pos 3 ∷ [];
  harderror = none;
  softerrors = open_failed (pos 12) (permission_denied (pos 12)) ∷ [];
}
unfolding refused sort keep pids_of atoi scan_decimal unsigned signed int_of digit bytes_eq
    mem_file_path_from_pid proc_path decimal digits
linux-open_all_example =
    linux-open_all proc_sys not_twelve opens_same (codes "12" ∷ codes "3" ∷ codes "self" ∷ []) tt tt
      refl

abbrev pid_key : Bytes
pid_key = codes "Pid"

-- One goroutine misses the cache and writes.
abbrev waiting : ℕ → At
waiting = update (λ i. idle) 0 (missed pid_key)

Reach-IsCache_example :
    IsCache (remember pid_key (some id) []).1
    × ((i : ℕ) → IsRight (update waiting 0 (returned pid_key (some id)) i))
unfolding remember field_for matching only tag bytes_eq lookup
Reach-IsCache_example =
    Reach-IsCache
      (next (next start (pick 0 (miss {key = pid_key} refl))) (pick 0 (write {key = pid_key})))

-- ===== src/Tests/Names.antt =====
-- Linux processes by their names.
use masche.Prelude.{◌≡◌, refl, Bool, [], ◌∷◌, none, Bytes, codes, bytes_eq, if◌then◌else◌, keep}
use masche.Go.{ok, err, open_failed, permission_denied, external}
use masche.Go.Int.{ℤ, pos}
use masche.Go.Number.{decimal, digits, digit}
use masche.Go.Number.Decimal.{decimal_ℤ, atoi, scan_decimal, unsigned, signed, int_of}
use masche.Maps.{mem_file_path_from_pid, proc_path}
use masche.System.{System}
use masche.Process.{open_all, open_by_name, sort, get_all_pids, open_loop, match_loop}
use masche.Process.Linux.{
  linux_host, pids_of, process_exe, name, open_from_pid, get_all_pids as linux_pids,
}
use masche.Process.Matching.{Names, noting, open_by_name_lem}
use masche.Examples.{error_said, text_said, ended}
use masche.Examples.Pgrep.{main, entry, pgrep-main}

-- The pids 12, 3 and 7. The memory of 12 may not be read, and the link of a process leads to
-- itself.
abbrev links_sys : System
links_sys = record {
  World = Unit {0};
  File = Unit {0};
  open_file =
      λ path w. (if bytes_eq path (mem_file_path_from_pid 12) then err (external []) else ok tt, w);
  contents = λ file w. (record { bytes = []; error = none }, w);
  read_at = λ file a n w. (record { bytes = []; error = none }, w);
  close = λ file w. w;
  warn = λ e w. w;
  read_dir = λ path w. (ok (codes "12" ∷ codes "3" ∷ codes "self" ∷ codes "7" ∷ []), w);
  eval_symlinks = λ path w. (ok path, w);
}

abbrev link_of : ℤ → Bytes
link_of pid = proc_path (decimal_ℤ pid) (codes "exe")

name-links_sys : (p : ℤ) (w : Unit {0}) → (name links_sys p w).0.name ≡ link_of p
unfolding name process_exe
name-links_sys p w = refl

abbrev links : Names (linux_host links_sys)
links = record { name_of = link_of; name_stays = name-links_sys }

abbrev is_third : Bytes → Bool
is_third s = bytes_eq s (codes "/proc/3/exe")

open_by_name_lem_example :
    ((open_by_name (linux_host links_sys) is_third tt).0.processes ≡ pos 3 ∷ [])
    × ((open_by_name (linux_host links_sys) is_third tt).0.harderror ≡ none)
    × ((open_by_name (noting (linux_host links_sys)) is_third (tt, [])).1.1 ≡ pos 7 ∷ [])
unfolding open_all get_all_pids open_loop sort bytes_eq keep pids_of atoi scan_decimal unsigned
    signed int_of digit open_from_pid mem_file_path_from_pid proc_path decimal digits decimal_ℤ
    linux_pids
open_by_name_lem_example = open_by_name_lem links is_third tt refl

-- `/proc/3/exe` is the only name that matches.
pgrep-main_example :
    ((main (linux_host links_sys) (λ p. p) (λ reg. ok is_third) (codes "3/exe") tt).said
      ≡ error_said (open_failed (pos 12) (permission_denied (pos 12)))
        ∷ text_said (codes "Process: /proc/3/exe\nPid: 3\n\n")
        ∷ [])
    × ((main (linux_host links_sys) (λ p. p) (λ reg. ok is_third) (codes "3/exe") tt).ending
        ≡ ended)
    × ((main
          (noting (linux_host links_sys))
          (λ p. p)
          (λ reg. ok is_third)
          (codes "3/exe")
          (tt, [])).world.1
        ≡ pos 7 ∷ [])
unfolding open_all get_all_pids open_loop sort bytes_eq keep pids_of atoi scan_decimal unsigned
    signed int_of digit open_from_pid mem_file_path_from_pid proc_path decimal digits decimal_ℤ
    open_by_name entry name process_exe linux_pids match_loop
pgrep-main_example =
    pgrep-main (λ p. p) links (λ reg. ok is_third) (codes "3/exe") is_third tt refl refl
      ((λ w. refl), tt)

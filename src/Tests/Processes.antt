-- ===== src/Tests/Processes.antt =====
-- A host with three processes, one of which cannot be opened.
use masche.Prelude.{ℕ, ◌+◌, ◌≡◌, refl, List, [], ◌∷◌, ◌++◌, none, codes, ◌==◌, if◌then◌else◌}
use mathlib.Core.List.{Perm}
use masche.Go.{open_failed, ok, err, permission_denied}
use masche.System.{System}
use masche.Go.Int.{pos, uint}
use masche.Process.{Host, Named, get_all_pids, open_loop, open_all, sort}
use masche.Process.Sort.{IsSorted, get_all_pids_lem}
use masche.Process.Opening.{Answers, processes_of, errors_of, open_all_lem}

-- The world is the list of closed processes, which are their pids.
abbrev pub host : Host
host = record {
  World = List ℕ;
  Process = ℕ;
  get_all_pids =
      λ w. (record { pids = pos 12 ∷ pos 3 ∷ pos 7 ∷ []; harderror = none; softerrors = [] }, w);
  open_from_pid = λ pid w. (
    record {
      process = if uint pid == 12 then err (permission_denied pid) else ok (uint pid);
      softerrors = [];
    },
    w,
  );
  name = λ p w. (record { name = (b'a' + p) ∷ []; harderror = none; softerrors = [] }, w);
  close = λ p w. (record { harderror = none; softerrors = [] }, w ++ p ∷ []);
}

opened : (open_all host []).0.processes ≡ 3 ∷ 7 ∷ []
unfolding open_all get_all_pids open_loop sort
opened = refl

get_all_pids_lem_example :
    IsSorted (get_all_pids host []).0.pids
    × Perm (get_all_pids host []).0.pids (pos 12 ∷ pos 3 ∷ pos 7 ∷ [])
    × ((get_all_pids host []).0.harderror ≡ none)
get_all_pids_lem_example = get_all_pids_lem host [] refl

abbrev answers : Answers host
answers = record {
  answer = λ pid. record {
    process = if uint pid == 12 then err (permission_denied pid) else ok (uint pid);
    softerrors = [];
  };
  answer_stays = λ pid w. refl;
}

open_all_lem_example : (open_all host []).0 ≡ record {
  processes = 3 ∷ 7 ∷ [];
  harderror = none;
  softerrors = open_failed (pos 12) (permission_denied (pos 12)) ∷ [];
}
unfolding processes_of errors_of sort
open_all_lem_example = open_all_lem answers [] refl

-- A system with one file: the maps file of a process that has one library.
abbrev libs_sys : System
libs_sys = record {
  World = Unit {0};
  File = Unit {0};
  open_file = λ path w. (ok tt, w);
  contents = λ file w. (
    record {
      bytes = codes "1-2 r-xp 0 8:1 7  /lib/b.so\n3-4 rw-p 0 0:0 0  [heap]\n";
      error = none;
    },
    w,
  );
  read_at = λ file a n w. (record { bytes = []; error = none }, w);
  close = λ file w. w;
  warn = λ e w. w;
  read_dir = λ path w. (ok [], w);
  eval_symlinks = λ path w. (ok path, w);
}

abbrev libs_name : Unit {0} → Named × Unit {0}
libs_name w = (record { name = codes "/bin/a"; harderror = none; softerrors = [] }, w)

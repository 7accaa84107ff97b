-- ===== src/Tests/Calls.antt =====
-- C functions that keep a list of the responses and a list of the handles, and a system that keeps a
-- list of its open files.
use masche.Prelude.{
  ℕ, ◌+◌, ◌≡◌, refl, sym, ap, Bool, true, false, List, [], ◌∷◌, none, some, Bytes, codes, ◌==◌,
  if◌then◌else◌, arith, keep,
}
use mathlib.Core.List.{Perm, erase}
use mathlib.Core.List.Perm
use native.Mathlib.Decide.{ℕ_discrete}
use masche.Go.{Error, Result, ok, err}
use masche.Go.Int.{pos, uint}
use masche.Cresponse.{Responses, ResponseT, Allocation}
use masche.System.{System}
use mathlib.Core.Logic.{ite}
use masche.Process.Handles.Cycle.{open_all-close_all}
use masche.Process.{Named, Pids, get_all_pids, open_all, close_all}
use masche.Process.Sort.{IsSorted}
use masche.Process.Handles.{HandleCalls, CProcess, open_from_pid, c_host}
use masche.Process.Handles.Balance.{
  Accounts, kept_open, open_from_pid-balance, close_all-balance, ClosesAny,
}
use masche.Process.Handles.Listing.{windows-get_all_pids}
use masche.Process.Windows.{WindowsCalls, windows_host, is_reserved}
use masche.Memaccess.Region.{MemoryRegion}
use masche.Memaccess.Image.{IsStable, after, read}
use masche.Memaccess.Linux.{linux}
use masche.Memaccess.Linux.Files.{Files}
use masche.Memaccess.Calls.{CRegion, MemoryCalls, c_platform}
use masche.Memaccess.Calls.Stable.{Answer, Serves, no_error, c_platform-IsStable}
use masche.Memaccess.Calls.Live.{Responds}
use masche.Memaccess.Walk.Keeps.{Holds}
use masche.Memsearch.{Search, search}
use masche.Memsearch.Keeps.{linux-search_closes, c_search_frees}

abbrev tail {ℓ} : {A : Type ℓ} → List A → List A
tail [] = []
tail (x ∷ xs) = xs

-- The responses that are allocated, and the open handles.
abbrev Books : Type 0
Books = List ℕ × List ℕ

abbrev response_of : ℕ → ResponseT
response_of p =
    if p == 9
    then record {
      fatal_error = some record { error_number = pos 5; description = [] };
      soft_errors = [];
    }
    else no_error

abbrev responses : Responses
responses = record {
  World = Books;
  Pointer = ℕ;
  points_to = λ p w. response_of p;
  response_free = λ p w. (tail w.0, w.1);
}

abbrev allocation : Allocation responses
allocation = record { live = λ w. w.0; frees = λ p ps w h. rw h refl }

-- A handle is the pid. The pid 9 cannot be opened.
abbrev handle_calls : HandleCalls responses
handle_calls = record {
  Handle = ℕ;
  Pid = ℕ;
  pid_of = uint;
  int_of = pos;
  open_process_handle = λ pid w. ((pid, pid), (pid ∷ w.0, pid ∷ w.1));
  close_process_handle = λ h w. (1, (1 ∷ w.0, tail w.1));
}

abbrev accounts : Accounts handle_calls
accounts = record {
  allocation = allocation;
  handles = λ w. w.1;
  handles-free = λ p w. refl;
  live-open = λ pid w. refl;
  handles-open = λ pid w. refl;
  live-close = λ h w. refl;
  handles-close = λ h hs w e. rw e refl;
}

open_from_pid-balance_example :
    ((open_from_pid responses handle_calls (pos 9) ([], 3 ∷ [])).1.0 ≡ [])
    × ((open_from_pid responses handle_calls (pos 9) ([], 3 ∷ [])).1.1
        ≡ kept_open {C = handle_calls}
            (open_from_pid responses handle_calls (pos 9) ([], 3 ∷ [])).0.process
            (3 ∷ []))
open_from_pid-balance_example = open_from_pid-balance accounts (pos 9) ([], 3 ∷ [])

-- Closing takes the handle out of the open ones, wherever it stands.
abbrev handle_calls2 : HandleCalls responses
handle_calls2 = record {
  Handle = ℕ;
  Pid = ℕ;
  pid_of = uint;
  int_of = pos;
  open_process_handle = λ pid w. ((pid, pid), (pid ∷ w.0, pid ∷ w.1));
  close_process_handle = λ h w. (1, (1 ∷ w.0, erase ℕ_discrete w.1 h));
}

abbrev no_pids : Books → Pids × Books
no_pids w = (record { pids = []; harderror = none; softerrors = [] }, w)

abbrev no_name2 : CProcess handle_calls2 → Books → Named × Books
no_name2 p w = (record { name = []; harderror = none; softerrors = [] }, w)

erase-head : (h : ℕ) (hs : List ℕ) → erase ℕ_discrete (h ∷ hs) h ≡ hs
erase-head h hs = taken (ℕ_discrete h h)
  where
    taken : (d : Dec (h ≡ h)) → ite {C = List ℕ} d hs (h ∷ erase ℕ_discrete hs h) ≡ hs
    taken (yes e) = refl
    taken (no n) = absurd (n refl)

accounts2 : Accounts handle_calls2
accounts2 = record {
  allocation = allocation;
  handles = λ w. w.1;
  handles-free = λ p w. refl;
  live-open = λ pid w. refl;
  handles-open = λ pid w. refl;
  live-close = λ h w. refl;
  handles-close = λ h hs w e. rw e (erase-head h hs);
}

closes_any : ClosesAny accounts2
unfolding accounts2
closes_any h hs w e = rw (erase-head h hs) at (Perm.erase ℕ_discrete h e)

-- The slice is in the order of opening, and the open handles are the other way round.
close_all-balance_example :
    ((close_all
        (c_host responses handle_calls2 no_pids no_name2)
        (record { hndl = 3; pid = 3 } ∷ record { hndl = 4; pid = 4 } ∷ [])
        ([], 4 ∷ 3 ∷ 5 ∷ [])).1.0
      ≡ [])
    × Perm
        (close_all
          (c_host responses handle_calls2 no_pids no_name2)
          (record { hndl = 3; pid = 3 } ∷ record { hndl = 4; pid = 4 } ∷ [])
          ([], 4 ∷ 3 ∷ 5 ∷ [])).1.1
        (5 ∷ [])
unfolding accounts2
close_all-balance_example =
    close_all-balance accounts2 closes_any no_pids no_name2
      (record { hndl = 3; pid = 3 } ∷ record { hndl = 4; pid = 4 } ∷ []) (5 ∷ [])
      ([], 4 ∷ 3 ∷ 5 ∷ []) (Perm.swap 3 4 (5 ∷ []))

abbrev two_pids : Books → Pids × Books
two_pids w = (record { pids = pos 4 ∷ pos 9 ∷ pos 3 ∷ []; harderror = none; softerrors = [] }, w)

open_all-close_all_example :
    let host = c_host responses handle_calls2 two_pids no_name2 in
    let r = open_all host ([], 5 ∷ []) in
    let w' = (close_all host r.0.processes r.1).1 in (w'.0 ≡ []) × Perm w'.1 (5 ∷ [])
unfolding accounts2
open_all-close_all_example =
    open_all-close_all accounts2 two_pids no_name2 (λ w. (refl, refl)) closes_any ([], 5 ∷ [])

abbrev windows_calls : WindowsCalls handle_calls
windows_calls = record {
  get_process_name = λ h w. (([], 1), (1 ∷ w.0, w.1));
  free = λ s w. w;
  EnumProcesses = Unit {0};
  enum_processes = λ w. ((0, 0 ∷ 4 ∷ 12 ∷ 7 ∷ [], tt), w);
  enum_processes_free = λ r w. w;
}

windows-get_all_pids_example :
    IsSorted (get_all_pids (windows_host responses handle_calls windows_calls) ([], [])).0.pids
    × Perm
        (get_all_pids (windows_host responses handle_calls windows_calls) ([], [])).0.pids
        (pos 12 ∷ pos 7 ∷ [])
    × ((get_all_pids (windows_host responses handle_calls windows_calls) ([], [])).0.harderror
        ≡ none)
unfolding keep is_reserved
windows-get_all_pids_example =
    windows-get_all_pids responses handle_calls windows_calls ([], []) (0 ∷ 4 ∷ 12 ∷ 7 ∷ []) refl
      refl

abbrev heap : List MemoryRegion
heap = record { address = 16; size = 4; access = 3; kind = codes "heap" } ∷ []

abbrev answer : List MemoryRegion → Bool × CRegion
answer [] = (false, record { start_address = 0; length_of = 0; access = 0; kind = [] })
answer (r ∷ rs) = (
  true,
  record { start_address = r.address; length_of = r.size; access = r.access; kind = r.kind },
)

answer-Answer : (rs : List MemoryRegion) → Answer rs (answer rs)
answer-Answer [] = refl
answer-Answer (r ∷ rs) = (refl, refl)

abbrev bytes : ℕ → ℕ
bytes a = a + 1

abbrev memory_calls : MemoryCalls responses
memory_calls = record {
  get_next_memory_region =
      λ a w. (((answer (after a heap)).0, (answer (after a heap)).1, 0), (0 ∷ w.0, w.1));
  copy_process_memory = λ a n w. ((read bytes a n, n, 0), (0 ∷ w.0, w.1));
}

serves : (w : Books) → Serves memory_calls heap bytes w
serves w = record {
  finds = λ a. answer-Answer (after a heap);
  finds_fine = λ a. refl;
  finds_back = λ a. refl;
  copies = λ a n p h. (refl, refl, refl, refl);
}

c_platform-IsStable_example : IsStable (c_platform responses memory_calls) heap bytes
c_platform-IsStable_example = c_platform-IsStable (omega arith) (omega arith) serves

abbrev responds : Responds memory_calls
responds = record { allocation = allocation; live-next = λ a w. refl; live-copy = λ a n w. refl }

c_search_frees_example :
    Holds
      (λ (v : Search × Books). v.1.0 ≡ [])
      (search (c_platform responses memory_calls) 10 (λ b. some 0) 4 0 ([], []))
c_search_frees_example = c_search_frees responds 10 4 0 (λ b. some 0) ([], [])

abbrev file_sys : System
file_sys = record {
  World = List (Unit {0});
  File = Unit {0};
  open_file = λ path w. (ok tt, tt ∷ w);
  contents = λ file w. (record { bytes = codes "10-14 rw-p 0 0:0 0\n"; error = none }, w);
  read_at = λ file a n w. (record { bytes = read bytes a n; error = none }, w);
  close = λ file w. tail w;
  warn = λ e w. w;
  read_dir = λ path w. (ok [], w);
  eval_symlinks = λ path w. (ok path, w);
}

never_refused :
    (path : Bytes) (e : Error) (w w1 : List (Unit {0}))
    → file_sys.open_file path w ≡ (err e, w1)
    → w1 ≡ w
never_refused path e w w1 h = absurd (cc)

abbrev open_files : Files file_sys
open_files = record {
  opened = λ w. w;
  opened-ok = λ path f w w1 h. sym (ap (λ (r : Result (Unit {0}) × List (Unit {0})). r.1) h);
  opened-err = λ path e w w1 h. never_refused path e w w1 h;
  opened-contents = λ f w. refl;
  opened-read_at = λ f a n w. refl;
  opened-close = λ f fs w h. rw h refl;
}

linux-search_closes_example :
    Holds
      (λ (v : Search × List (Unit {0})). v.1 ≡ [])
      (search (linux file_sys 7) 10 (λ b. some 0) 4 0 [])
linux-search_closes_example = linux-search_closes open_files 7 10 4 0 (λ b. some 0) []

-- ===== src/Process/Handles/Listing.antt =====
-- `GetAllPids` on Windows and on Darwin.
use masche.Prelude.{
  ℕ, ◌/◌, ◌≡◌, refl, ◌∙◌, Bool, true, false, List, [], ◌∷◌, ◌++◌, append_assoc, append-nil, none,
  take, keep, map, if◌then◌else◌, sym, Bool-cases, inl, inr,
}
use mathlib.Core.List.{Perm}
use masche.Go.{ok}
use masche.Go.Int.{ℤ, pos, is_zero}
use masche.Cresponse.{Responses}
use masche.Process.{get_all_pids}
use masche.Process.Sort.{IsSorted, get_all_pids_lem}
use masche.Process.Handles.{HandleCalls}
use masche.Process.Windows
use masche.Process.Windows.{WindowsCalls, windows_host, is_reserved}
use masche.Process.Darwin
use masche.Process.Darwin.{DarwinCalls, darwin_host}

-- The pids that are not reserved on Windows, and those that are not 0.
abbrev pub usable : ℕ → Bool
usable pid = if is_reserved pid then false else true

abbrev pub is_there : ℤ → Bool
is_there pid = if is_zero pid then false else true

windows_loop :
    (listed : List ℕ) (pids : List ℤ)
    → Windows.pids_loop listed pids ≡ pids ++ map pos (keep usable listed)
unfolding Windows.pids_loop keep
windows_loop [] pids = sym (append-nil pids)
windows_loop (pid ∷ listed) pids = elim (Bool-cases (is_reserved pid)) [
  | inl e ↦ rw (Windows.pids_loop, e) (windows_loop listed pids)
  | inr e ↦
      rw (Windows.pids_loop, e)
        (windows_loop listed (pids ++ pos pid ∷ [])
          ∙ append_assoc pids (pos pid ∷ []) (map pos (keep usable listed)))
]

darwin_loop : (listed pids : List ℤ) → Darwin.pids_loop listed pids ≡ pids ++ keep is_there listed
unfolding Darwin.pids_loop keep
darwin_loop [] pids = sym (append-nil pids)
darwin_loop (pid ∷ listed) pids = elim (Bool-cases (is_zero pid)) [
  | inl e ↦ rw (Darwin.pids_loop, e) (darwin_loop listed pids)
  | inr e ↦
      rw (Darwin.pids_loop, e)
        (darwin_loop listed (pids ++ pid ∷ [])
          ∙ append_assoc pids (pid ∷ []) (keep is_there listed))
]

module _ (R : Responses) (C : HandleCalls R) where
  -- If the system lists the pids without an error, `GetAllPids` on Windows returns those other than
  -- 0 and 4, each as often, in ascending order, and no hard error.
  pub windows-get_all_pids :
      (W : WindowsCalls C) (w : R.World) (listed : List ℕ)
      → (W.enum_processes w).0.0 ≡ 0
      → (W.enum_processes w).0.1 ≡ listed
      → IsSorted (get_all_pids (windows_host R C W) w).0.pids
        × Perm (get_all_pids (windows_host R C W) w).0.pids (map pos (keep usable listed))
        × ((get_all_pids (windows_host R C W) w).0.harderror ≡ none)
  unfolding Windows.get_all_pids
  windows-get_all_pids W w listed fine lists =
      let fine' : (Windows.get_all_pids R C W w).0.harderror ≡ none =
        rw (Windows.get_all_pids, fine) refl in
      let pids : (Windows.get_all_pids R C W w).0.pids ≡ map pos (keep usable listed) =
        rw (Windows.get_all_pids, fine, lists) (windows_loop listed []) in
      rw pids at (get_all_pids_lem (windows_host R C W) w fine')

  -- If `proc_listpids` succeeds, `GetAllPids` on Darwin returns the pids other than 0 among those
  -- that the bytes used make up, each as often, in ascending order, and no hard error.
  pub darwin-get_all_pids :
      (D : DarwinCalls C) (w w1 : R.World) (bytes_used : ℕ) (listed : List ℤ)
      → D.proc_listpids w ≡ (ok (bytes_used, listed), w1)
      → IsSorted (get_all_pids (darwin_host R C D) w).0.pids
        × Perm
            (get_all_pids (darwin_host R C D) w).0.pids
            (keep is_there (take (bytes_used / 4) listed))
        × ((get_all_pids (darwin_host R C D) w).0.harderror ≡ none)
  unfolding Darwin.get_all_pids
  darwin-get_all_pids D w w1 bytes_used listed lists =
      let fine : (Darwin.get_all_pids R C D w).0.harderror ≡ none =
        rw (Darwin.get_all_pids, lists) refl in
      let pids : (Darwin.get_all_pids R C D w).0.pids
          ≡ keep is_there (take (bytes_used / 4) listed) =
        rw (Darwin.get_all_pids, lists) (darwin_loop (take (bytes_used / 4) listed) []) in
      rw pids at (get_all_pids_lem (darwin_host R C D) w fine)

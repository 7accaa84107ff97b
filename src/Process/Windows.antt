-- ===== src/Process/Windows.antt =====
-- process/process_windows.go: the pids and the names on Windows. The C functions are a parameter.
use masche.Prelude.{
  ℕ, Bool, true, false, ◌||◌, ◌==◌, List, [], ◌∷◌, ◌++◌, none, some, Bytes, if◌then◌else◌,
}
use masche.Go.{c_status}
use masche.Go.Int.{ℤ, pos}
use masche.Cresponse.{Responses, take_response}
use masche.Process.{Pids, Named, Host}
use masche.Process.Handles.{HandleCalls, CProcess, c_host}

-- What process_windows.h declares; `List ℕ` are the pids, each a `DWORD`.
pub record WindowsCalls {R : Responses} (C : HandleCalls R) : Type 1 where
  pub get_process_name : C.Handle → R.World → (Bytes × R.Pointer) × R.World
  -- the release of a name
  pub free : Bytes → R.World → R.World
  pub EnumProcesses : Type 0
  pub enum_processes : R.World → (ℕ × List ℕ × EnumProcesses) × R.World
  pub enum_processes_free : EnumProcesses → R.World → R.World

-- "pids 0 and 4 are reserved in windows"
unfoldable pub is_reserved : ℕ → Bool
is_reserved pid = pid == 0 || pid == 4

-- The loop of `getAllPids`.
unfoldable pub pids_loop : List ℕ → List ℤ → List ℤ
pids_loop [] pids = pids
pids_loop (pid ∷ rest) pids = elim (is_reserved pid) [
  | true ↦ pids_loop rest pids
  | false ↦ pids_loop rest (pids ++ pos pid ∷ [])
]

module _ (R : Responses) (C : HandleCalls R) (W : WindowsCalls C) where
  unfoldable pub name : CProcess C → R.World → Named × R.World
  unfolding take_response
  name p w =
      let ((cname, r), w1) = W.get_process_name p.hndl w in
      let (errors, w2) = take_response R r w1 in
      elim errors.harderror [
        | some e ↦ (record { name = []; harderror = some e; softerrors = errors.softerrors }, w2)
        | none ↦ (
          record { name = cname; harderror = none; softerrors = errors.softerrors },
          W.free cname w2,
        )
      ]

  unfoldable pub get_all_pids : R.World → Pids × R.World
  unfolding pids_loop
  get_all_pids w =
      let ((error, cpids, r), w1) = W.enum_processes w in
      if error == 0
      then (
        record { pids = pids_loop cpids []; harderror = none; softerrors = [] },
        W.enum_processes_free r w1,
      )
      else (
        record { pids = []; harderror = some (c_status error); softerrors = [] },
        W.enum_processes_free r w1,
      )

  abbrev pub windows_host : Host
  windows_host = c_host R C get_all_pids name

-- ===== src/Process/Handles.antt =====
-- process/process_c_wrapper.go: the handles of the processes on Windows and Darwin. The C functions
-- are a parameter.
pub mod Balance
pub mod Listing
pub mod Cycle
use masche.Prelude.{ℕ, List, [], ◌∷◌, Option, none, some, Bytes}
use masche.Go.{Error, ok, err}
use masche.Go.Int.{ℤ}
use masche.Cresponse.{Responses, take_response}
use masche.Process.{Opened, Closed, Host, Named, Pids}

-- What process.h declares, with the conversions to and from `pid_tt`.
pub record HandleCalls (R : Responses) : Type 1 where
  pub Handle : Type 0
  pub Pid : Type 0
  pub pid_of : ℤ → Pid
  pub int_of : Pid → ℤ
  -- what it leaves in the variable for the handle, and its response
  pub open_process_handle : Pid → R.World → (Handle × R.Pointer) × R.World
  pub close_process_handle : Handle → R.World → R.Pointer × R.World

-- `process`
pub record CProcess {R : Responses} (C : HandleCalls R) : Type 0 where
  pub hndl : C.Handle
  pub pid : C.Pid

module _ (R : Responses) (C : HandleCalls R) where
  unfoldable pub process_pid : CProcess C → ℤ
  process_pid p = C.int_of p.pid

  unfoldable pub process_handle : CProcess C → C.Handle
  process_handle p = p.hndl

  unfoldable pub close : CProcess C → R.World → Closed × R.World
  unfolding take_response
  close p w =
      let (resp, w1) = C.close_process_handle p.hndl w in
      let (errors, w2) = take_response R resp w1 in
      (record { harderror = errors.harderror; softerrors = errors.softerrors }, w2)

  -- What becomes of the handle: it is kept, or closed if there is a hard error.
  unfoldable pub close_failed : C.Handle → R.World → R.World
  close_failed hndl w = let (resp, w1) = C.close_process_handle hndl w in R.response_free resp w1

  unfoldable pub open_from_pid : ℤ → R.World → Opened (CProcess C) × R.World
  unfolding take_response close_failed
  open_from_pid pid w =
      let ((hndl, resp), w1) = C.open_process_handle (C.pid_of pid) w in
      let (errors, w2) = take_response R resp w1 in
      elim errors.harderror [
        | some e ↦
            (record { process = err e; softerrors = errors.softerrors }, close_failed hndl w2)
        | none ↦ (
          record {
            process = ok record { hndl = hndl; pid = C.pid_of pid };
            softerrors = errors.softerrors;
          },
          w2,
        )
      ]

  -- The operating system with these processes, its list of pids and its names.
  abbrev pub c_host : (R.World → Pids × R.World) → (CProcess C → R.World → Named × R.World) → Host
  c_host get_all_pids name = record {
    World = R.World;
    Process = CProcess C;
    get_all_pids = get_all_pids;
    open_from_pid = open_from_pid;
    name = name;
    close = close;
  }

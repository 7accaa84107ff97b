-- ===== src/Process/Handles/Balance.antt =====
-- What is left allocated behind the calls of process_c_wrapper.go.
use masche.Prelude.{◌≡◌, refl, List, [], ◌∷◌, ◌++◌, ◌∙◌, Option-cases, inl, inr, map}
use mathlib.Core.List.{Perm}
use masche.Go.{Error, Result, ok, err}
use masche.Go.Int.{ℤ}
use masche.Cresponse.{Responses, Allocation, take_response, get_responses_errors}
use masche.Process.{close_loop, close_all, list_of, Pids, Named}
use masche.Process.Handles.{HandleCalls, CProcess, close, close_failed, open_from_pid, c_host}

-- Which responses are allocated and which handles are open, as process.h has it: every call
-- makes one response; a handle is closed once, also one whose opening failed.
pub record Accounts {R : Responses} (C : HandleCalls R) : Type 0 where
  pub allocation : Allocation R
  pub handles : R.World → List C.Handle
  pub handles-free : (p : R.Pointer) (w : R.World) → handles (R.response_free p w) ≡ handles w
  pub live-open :
      (pid : C.Pid) (w : R.World)
      → allocation.live (C.open_process_handle pid w).1
        ≡ (C.open_process_handle pid w).0.1 ∷ allocation.live w
  pub handles-open :
      (pid : C.Pid) (w : R.World)
      → handles (C.open_process_handle pid w).1 ≡ (C.open_process_handle pid w).0.0 ∷ handles w
  pub live-close :
      (h : C.Handle) (w : R.World)
      → allocation.live (C.close_process_handle h w).1
        ≡ (C.close_process_handle h w).0 ∷ allocation.live w
  pub handles-close :
      (h : C.Handle) (hs : List C.Handle) (w : R.World)
      → handles w ≡ h ∷ hs
      → handles (C.close_process_handle h w).1 ≡ hs

-- The handles that a result of `OpenFromPid` leaves open in front of those before.
abbrev pub kept_open :
    {R : Responses} {C : HandleCalls R} → Result (CProcess C) → List C.Handle → List C.Handle
kept_open (ok p) hs = p.hndl ∷ hs
kept_open (err e) hs = hs

module _ {R : Responses} {C : HandleCalls R} (acc : Accounts C) where
  open acc use {allocation, handles}

  close_failed-balance :
      (h : C.Handle) (hs : List C.Handle) (w : R.World)
      → handles w ≡ h ∷ hs
      → (allocation.live (close_failed R C h w) ≡ allocation.live w)
        × (handles (close_failed R C h w) ≡ hs)
  unfolding close_failed
  close_failed-balance h hs w e = (
    allocation.frees (C.close_process_handle h w).0 (allocation.live w)
        (C.close_process_handle h w).1 (acc.live-close h w),
    acc.handles-free (C.close_process_handle h w).0 (C.close_process_handle h w).1
        ∙ acc.handles-close h hs w e,
  )

  -- Behind the call that opens a handle, with its response freed.
  abbrev opened : ℤ → R.World → R.World
  opened pid w =
      R.response_free (C.open_process_handle (C.pid_of pid) w).0.1
        (C.open_process_handle (C.pid_of pid) w).1

  opened-live : (pid : ℤ) (w : R.World) → allocation.live (opened pid w) ≡ allocation.live w
  opened-live pid w =
      allocation.frees (C.open_process_handle (C.pid_of pid) w).0.1 (allocation.live w)
        (C.open_process_handle (C.pid_of pid) w).1 (acc.live-open (C.pid_of pid) w)

  opened-handles :
      (pid : ℤ) (w : R.World)
      → handles (opened pid w) ≡ (C.open_process_handle (C.pid_of pid) w).0.0 ∷ handles w
  opened-handles pid w =
      acc.handles-free (C.open_process_handle (C.pid_of pid) w).0.1
        (C.open_process_handle (C.pid_of pid) w).1
      ∙ acc.handles-open (C.pid_of pid) w

  -- Where each C function makes one response, which `response_free` frees, opening opens one
  -- handle, also if it fails, and closing closes the handle that was opened last if it is the one
  -- given, `openFromPid` leaves the same responses allocated as before. The open handles are those
  -- before with that of the new process in front, and exactly those before if it returns a hard
  -- error.
  pub open_from_pid-balance :
      (pid : ℤ) (w : R.World)
      → (allocation.live (open_from_pid R C pid w).1 ≡ allocation.live w)
        × (handles (open_from_pid R C pid w).1
            ≡ kept_open (open_from_pid R C pid w).0.process (handles w))
  unfolding open_from_pid take_response
  open_from_pid-balance pid w =
      let ((hndl, resp), w1) = C.open_process_handle (C.pid_of pid) w in
      elim (Option-cases (get_responses_errors (R.points_to resp w1)).harderror) [
        | inl fine ↦ rw (open_from_pid, fine) (opened-live pid w, opened-handles pid w)
        | inr (x, e) ↦
            let b = close_failed-balance hndl (handles w) (opened pid w) (opened-handles pid w) in
            rw (open_from_pid, e) (b.0 ∙ opened-live pid w, b.1)
      ]

  -- Closing an open handle leaves the others open, whichever was opened last.
  abbrev pub ClosesAny : Type 0
  ClosesAny =
      (h : C.Handle) (hs : List C.Handle) (w : R.World)
      → Perm (handles w) (h ∷ hs)
      → Perm (handles (C.close_process_handle h w).1) hs

  module _ (closes : ClosesAny) where
    close-balance :
        (p : CProcess C) (hs : List C.Handle) (w : R.World)
        → Perm (handles w) (p.hndl ∷ hs)
        → (allocation.live (close R C p w).1 ≡ allocation.live w)
          × Perm (handles (close R C p w).1) hs
    unfolding close take_response
    close-balance p hs w e =
        let (r, w1) = C.close_process_handle p.hndl w in
        (
          allocation.frees r (allocation.live w) w1 (acc.live-close p.hndl w),
          rw (acc.handles-free r w1) (closes p.hndl hs w e),
        )

    module _ (get_all_pids : R.World → Pids × R.World)
        (name : CProcess C → R.World → Named × R.World) where
      close_loop-balance :
          (ps : List (CProcess C)) (hs : List C.Handle) (hards softs : List Error) (w : R.World)
          → Perm (handles w) (map (λ p. p.hndl) ps ++ hs)
          → (allocation.live (close_loop (c_host R C get_all_pids name) ps hards softs w).1
              ≡ allocation.live w)
            × Perm (handles (close_loop (c_host R C get_all_pids name) ps hards softs w).1) hs
      unfolding close_loop
      close_loop-balance [] hs hards softs w e = (refl, e)
      close_loop-balance (p ∷ ps) hs hards softs w e =
          let one = close-balance p (map (λ p. p.hndl) ps ++ hs) w e in
          let (c, w') = close R C p w in
          let rest =
            close_loop-balance ps hs (hards ++ list_of c.harderror) (softs ++ c.softerrors) w'
              one.1 in
          (rest.0 ∙ one.0, rest.1)

      -- Where each C function makes one response, which `response_free` frees, and closing an open
      -- handle leaves the others open, whichever was opened last: if the handles of the processes
      -- are among the open ones, in any order, `CloseAll` leaves exactly the others open, up to
      -- their order, and the same responses allocated as before.
      pub close_all-balance :
          (ps : List (CProcess C)) (hs : List C.Handle) (w : R.World)
          → Perm (handles w) (map (λ p. p.hndl) ps ++ hs)
          → (allocation.live (close_all (c_host R C get_all_pids name) ps w).1 ≡ allocation.live w)
            × Perm (handles (close_all (c_host R C get_all_pids name) ps w).1) hs
      unfolding close_all
      close_all-balance ps hs w e = close_loop-balance ps hs [] [] w e

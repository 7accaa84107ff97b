-- ===== src/Process/Darwin.antt =====
-- process/process_darwin.go: the pids and the names on Darwin. The C library is a parameter, and so is
-- package path/filepath.
use masche.Prelude.{ℕ, ◌/◌, true, false, List, [], ◌∷◌, ◌++◌, none, some, Bytes, take}
use masche.Go.{Result, ok, err, no_path}
use masche.Go.Int.{ℤ, is_zero}
use masche.Cresponse.{Responses}
use masche.Process.{Pids, Named, Host}
use masche.Process.Handles.{HandleCalls, CProcess, c_host}

pub record DarwinCalls {R : Responses} (C : HandleCalls R) : Type 0 where
  pub proc_pidpath : C.Pid → R.World → Result Bytes × R.World
  pub eval_symlinks : Bytes → R.World → Result Bytes × R.World
  -- the bytes used, and the pids in the buffer of 2048 that is passed
  pub proc_listpids : R.World → Result (ℕ × List ℤ) × R.World

abbrev pid_size : ℕ
pid_size = 4

-- The loop of `getAllPids`.
unfoldable pub pids_loop : List ℤ → List ℤ → List ℤ
pids_loop [] pids = pids
pids_loop (pid ∷ rest) pids = elim (is_zero pid) [
  | true ↦ pids_loop rest pids
  | false ↦ pids_loop rest (pids ++ pid ∷ [])
]

module _ (R : Responses) (C : HandleCalls R) (D : DarwinCalls C) where
  unfoldable pub name : CProcess C → R.World → Named × R.World
  name p w =
      let (path, w1) = D.proc_pidpath p.pid w in
      elim path [
        | err e ↦ (
          record { name = []; harderror = some (no_path (C.int_of p.pid) e); softerrors = [] },
          w1,
        )
        | ok cname ↦
            let (link, w2) = D.eval_symlinks cname w1 in
            elim link [
              | err e ↦ (record { name = []; harderror = some e; softerrors = [] }, w2)
              | ok s ↦ (record { name = s; harderror = none; softerrors = [] }, w2)
            ]
      ]

  unfoldable pub get_all_pids : R.World → Pids × R.World
  unfolding pids_loop
  get_all_pids w =
      let (r, w1) = D.proc_listpids w in
      elim r [
        | err e ↦ (record { pids = []; harderror = some e; softerrors = [] }, w1)
        | ok (bytes_used, cpids) ↦ (
          record {
            pids = pids_loop (take (bytes_used / pid_size) cpids) [];
            harderror = none;
            softerrors = [];
          },
          w1,
        )
      ]

  abbrev pub darwin_host : Host
  darwin_host = c_host R C get_all_pids name

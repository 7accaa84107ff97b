-- ===== src/Process/Opening.antt =====
-- What `OpenAll` opens and which errors it reports.
use masche.Prelude.{◌≡◌, List, [], ◌∷◌, ◌++◌, append_assoc, append-nil, none, arith, inl, inr}
use masche.Go.{Error, Result-cases, ok, err, open_failed}
use masche.Go.Int.{ℤ}
use masche.Process.{Host, Opened, sort, get_all_pids, open_loop, open_all}

-- A host where opening a pid comes to the same each time.
pub record Answers (h : Host) : Type 0 where
  pub answer : ℤ → Opened h.Process
  pub answer_stays : (pid : ℤ) (w : h.World) → (h.open_from_pid pid w).0 ≡ answer pid

module _ {h : Host} (book : Answers h) where
  -- The processes that can be opened, in the order of the pids.
  unfoldable pub processes_of : List ℤ → List h.Process
  processes_of [] = []
  processes_of (pid ∷ pids) = elim (book.answer pid).process [
    | ok p ↦ p ∷ processes_of pids
    | err e ↦ processes_of pids
  ]

  -- For a pid that cannot be opened, that error, and for the others their soft errors.
  unfoldable pub errors_of : List ℤ → List Error
  errors_of [] = []
  errors_of (pid ∷ pids) = elim (book.answer pid).process [
    | ok p ↦ (book.answer pid).softerrors ++ errors_of pids
    | err e ↦ open_failed pid e ∷ errors_of pids
  ]

  open_loop_lem :
      (pids : List ℤ) (ps : List h.Process) (softs : List Error) (w : h.World)
      → (open_loop h pids ps softs w).0 ≡ record {
        processes = ps ++ processes_of pids;
        harderror = none;
        softerrors = softs ++ errors_of pids;
      }
  unfolding open_loop processes_of errors_of
  open_loop_lem [] ps softs w = rw (append-nil ps, append-nil softs)
  open_loop_lem (pid ∷ pids) ps softs w =
      let w' = (h.open_from_pid pid w).1 in
      elim (Result-cases (book.answer pid).process) [
        | inl (p, e) ↦ ground (
          arith,
          book.answer_stays pid w,
          append_assoc ps (p ∷ []) (processes_of pids),
          append_assoc softs (book.answer pid).softerrors (errors_of pids),
          open_loop_lem pids (ps ++ p ∷ []) (softs ++ (book.answer pid).softerrors) w',
        )
        | inr (x, e) ↦ ground (
          arith,
          book.answer_stays pid w,
          append_assoc softs (open_failed pid x ∷ []) (errors_of pids),
          open_loop_lem pids ps (softs ++ open_failed pid x ∷ []) w',
        )
      ]

  -- Where opening a pid comes to the same each time, and the list of pids has no hard error,
  -- `OpenAll` returns a process for each pid that can be opened, in ascending order of the pids,
  -- with no hard error. Its soft errors are those of the list and, in the same order, one for each
  -- pid that cannot be opened and those of the others.
  pub open_all_lem :
      (w : h.World)
      → (h.get_all_pids w).0.harderror ≡ none
      → let listed = (h.get_all_pids w).0 in
        (open_all h w).0 ≡ record {
          processes = processes_of (sort listed.pids);
          harderror = none;
          softerrors = listed.softerrors ++ errors_of (sort listed.pids);
        }
  unfolding open_all get_all_pids
  open_all_lem w e =
      let listed = (h.get_all_pids w).0 in
      ground (arith, open_loop_lem (sort listed.pids) [] listed.softerrors (h.get_all_pids w).1)

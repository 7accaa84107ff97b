-- ===== src/Process/Matching.antt =====
-- What `OpenByName` and `CloseAll` do to the processes, through the calls in between.
use masche.Prelude.{
  ◌≡◌, refl, Bool, true, false, not, List, [], ◌∷◌, ◌++◌, append_assoc, append-nil, none, Bytes,
  arith, Bool-cases, Option-cases, inl, inr, keep, sym, ◌∙◌, ap,
}
use masche.Go.{Error, Result-cases, open_failed}
use masche.Go.Int.{ℤ}
use masche.Process.{
  Host, sort, get_all_pids, open_loop, open_all, close_loop, close_all, match_loop, open_by_name,
  list_of,
}

-- A host whose processes keep their names, with a record of the processes that were closed, in
-- order, that only `close` adds to.
pub record Ledger (h : Host) : Type 0 where
  pub name_of : h.Process → Bytes
  pub closed : h.World → List h.Process
  pub name_stays : (p : h.Process) (w : h.World) → (h.name p w).0.name ≡ name_of p
  pub closed-name : (p : h.Process) (w : h.World) → closed (h.name p w).1 ≡ closed w
  pub closed-close : (p : h.Process) (w : h.World) → closed (h.close p w).1 ≡ closed w ++ p ∷ []

module _ {h : Host} (book : Ledger h) where
  close_loop-closed :
      (ps : List h.Process) (hards softs : List Error) (w : h.World)
      → book.closed (close_loop h ps hards softs w).1 ≡ book.closed w ++ ps
  unfolding close_loop
  close_loop-closed [] hards softs w = sym (append-nil (book.closed w))
  close_loop-closed (p ∷ ps) hards softs w =
      close_loop-closed ps _ _ (h.close p w).1 ∙ rw (book.closed-close p w, append_assoc)

  -- Where only `Close` closes a process, `CloseAll` closes every process of the slice once, in
  -- order, whatever errors there are.
  pub close_all-closed :
      (ps : List h.Process) (w : h.World) → book.closed (close_all h ps w).1 ≡ book.closed w ++ ps
  unfolding close_all
  close_all-closed ps w = close_loop-closed ps [] [] w

  module _ (matches : Bytes → Bool) where
    abbrev wanted : h.Process → Bool
    wanted p = matches (book.name_of p)

    module _ (p : h.Process) (ps matchs : List h.Process) (softs : List Error) (w : h.World) where
      abbrev named : h.World
      named = (h.name p w).1

      abbrev softs' : List Error
      softs' = (softs ++ list_of (h.name p w).0.harderror) ++ (h.name p w).0.softerrors

      match_loop_keeps :
          wanted p ≡ true
          → match_loop h matches (p ∷ ps) matchs softs w
            ≡ match_loop h matches ps (matchs ++ p ∷ []) softs' named
      unfolding match_loop
      match_loop_keeps e = ground (arith, book.name_stays p w)

      match_loop_closes :
          wanted p ≡ false
          → match_loop h matches (p ∷ ps) matchs softs w
            ≡ match_loop h matches ps matchs softs' (h.close p named).1
      unfolding match_loop
      match_loop_closes e = ground (arith, book.name_stays p w)

    match_loop_lem :
        (ps matchs : List h.Process) (softs : List Error) (w : h.World)
        → ((match_loop h matches ps matchs softs w).0.processes ≡ matchs ++ keep wanted ps)
          × ((match_loop h matches ps matchs softs w).0.harderror ≡ none)
          × (book.closed (match_loop h matches ps matchs softs w).1
              ≡ book.closed w ++ keep (λ p. not (wanted p)) ps)
    unfolding keep
    match_loop_lem [] matchs softs w =
        unfold match_loop in (sym (append-nil matchs), refl, sym (append-nil (book.closed w)))
    match_loop_lem (p ∷ ps) matchs softs w = elim (Bool-cases (wanted p)) [
      | inl e ↦
          let (a, b, c) =
            match_loop_lem ps (matchs ++ p ∷ []) (softs' p ps matchs softs w)
              (named p ps matchs softs w) in
          rw (match_loop_keeps p ps matchs softs w e, e)
            (
              a ∙ append_assoc matchs (p ∷ []) (keep wanted ps),
              b,
              c ∙ ap (λ t. t ++ keep (λ q. not (wanted q)) ps) (book.closed-name p w),
            )
      | inr e ↦
          let (a, b, c) =
            match_loop_lem ps matchs (softs' p ps matchs softs w)
              (h.close p (named p ps matchs softs w)).1 in
          rw (match_loop_closes p ps matchs softs w e, e)
            (
              a,
              b,
              c
                  ∙ rw (
                    book.closed-close p (named p ps matchs softs w),
                    book.closed-name p w,
                    append_assoc,
                  ),
            )
    ]

    open_by_name_matches :
        (w : h.World)
        → (open_all h w).0.harderror ≡ none
        → open_by_name h matches w
          ≡ match_loop h matches
              (open_all h w).0.processes
              []
              (open_all h w).0.softerrors
              (open_all h w).1
    unfolding open_by_name
    open_by_name_matches w e = ground arith

    open_by_name-Ledger :
        (w : h.World)
        → (open_all h w).0.harderror ≡ none
        → let r = open_by_name h matches w in
          let ps = (open_all h w).0.processes in
          (r.0.processes ≡ keep wanted ps)
          × (r.0.harderror ≡ none)
          × (book.closed r.1 ≡ book.closed (open_all h w).1 ++ keep (λ p. not (wanted p)) ps)
    open_by_name-Ledger w e =
        rw (open_by_name_matches w e) (
          match_loop_lem (open_all h w).0.processes [] (open_all h w).0.softerrors (open_all h w).1)

-- The same host with a note of each process that `Close` is called on, in order.
abbrev pub noting : Host → Host
noting h = record {
  World = h.World × List h.Process;
  Process = h.Process;
  get_all_pids = λ w. ((h.get_all_pids w.0).0, ((h.get_all_pids w.0).1, w.1));
  open_from_pid = λ pid w. ((h.open_from_pid pid w.0).0, ((h.open_from_pid pid w.0).1, w.1));
  name = λ p w. ((h.name p w.0).0, ((h.name p w.0).1, w.1));
  close = λ p w. ((h.close p w.0).0, ((h.close p w.0).1, w.1 ++ p ∷ []));
}

-- A host whose processes keep their names.
pub record Names (h : Host) : Type 0 where
  pub name_of : h.Process → Bytes
  pub name_stays : (p : h.Process) (w : h.World) → (h.name p w).0.name ≡ name_of p

module _ {h : Host} (book : Names h) where
  abbrev notes : Ledger (noting h)
  notes = record {
    name_of = book.name_of;
    closed = λ w. w.1;
    name_stays = λ p w. book.name_stays p w.0;
    closed-name = λ p w. refl;
    closed-close = λ p w. refl;
  }

-- The notes change nothing else.
module _ (h : Host) (l : List h.Process) where
  open_loop-noting :
      (pids : List ℤ) (ps : List h.Process) (softs : List Error) (w : h.World)
      → open_loop (noting h) pids ps softs (w, l)
        ≡ ((open_loop h pids ps softs w).0, ((open_loop h pids ps softs w).1, l))
  unfolding open_loop
  open_loop-noting [] ps softs w = refl
  open_loop-noting (pid ∷ pids) ps softs w =
      let (o, w') = h.open_from_pid pid w in
      elim (Result-cases o.process) [
        | inl (p, e) ↦
            ground (arith, e, open_loop-noting pids (ps ++ p ∷ []) (softs ++ o.softerrors) w')
        | inr (x, e) ↦
            ground (arith, e, open_loop-noting pids ps (softs ++ open_failed pid x ∷ []) w')
      ]

  open_all-noting :
      (w : h.World) → open_all (noting h) (w, l) ≡ ((open_all h w).0, ((open_all h w).1, l))
  unfolding open_all get_all_pids
  open_all-noting w =
      let (r, w') = h.get_all_pids w in
      elim (Option-cases r.harderror) [
        | inr (x, e) ↦ ground (arith, e)
        | inl e ↦ ground (arith, e, open_loop-noting (sort r.pids) [] r.softerrors w')
      ]

match_loop-noting :
    (h : Host) (matches : Bytes → Bool) (ps matchs : List h.Process) (softs : List Error)
    (w : h.World) (l : List h.Process)
    → (match_loop (noting h) matches ps matchs softs (w, l)).0
      ≡ (match_loop h matches ps matchs softs w).0
unfolding match_loop
match_loop-noting h matches [] matchs softs w l = refl
match_loop-noting h matches (p ∷ ps) matchs softs w l =
    let (n, w') = h.name p w in
    let softs' = (softs ++ list_of n.harderror) ++ n.softerrors in
    elim (Bool-cases (matches n.name)) [
      | inl e ↦ ground (arith, e, match_loop-noting h matches ps (matchs ++ p ∷ []) softs' w' l)
      | inr e ↦
          ground
            (arith, e, match_loop-noting h matches ps matchs softs' (h.close p w').1 (l ++ p ∷ []))
    ]

pub open_by_name-noting :
    (h : Host) (matches : Bytes → Bool) (w : h.World) (l : List h.Process)
    → (open_by_name (noting h) matches (w, l)).0 ≡ (open_by_name h matches w).0
unfolding open_by_name
open_by_name-noting h matches w l =
    let (r, w') = open_all h w in
    elim (Option-cases r.harderror) [
      | inr (x, e) ↦ ground (arith, e, open_all-noting h l w)
      | inl e ↦ ground (
        arith,
        e,
        open_all-noting h l w,
        match_loop-noting h matches r.processes [] r.softerrors w' l,
      )
    ]

module _ {h : Host} (book : Names h) (matches : Bytes → Bool) where
  -- Where names do not change and `OpenAll` has no hard error, `OpenByName` returns the opened
  -- processes whose name matches, in order, with no hard error. With a note of the calls of `Close`
  -- it calls it on the others, once each, in order, and on no process that it returns.
  pub open_by_name_lem :
      (w : h.World)
      → (open_all h w).0.harderror ≡ none
      → let r = open_by_name h matches w in
        let ps = (open_all h w).0.processes in
        (r.0.processes ≡ keep (λ p. matches (book.name_of p)) ps)
        × (r.0.harderror ≡ none)
        × ((open_by_name (noting h) matches (w, [])).1.1
            ≡ keep (λ p. not (matches (book.name_of p))) ps)
  open_by_name_lem w e =
      let all = open_all-noting h [] w in
      let (a, b, c) = open_by_name-Ledger (notes book) matches (w, []) (rw all e) in
      let same = open_by_name-noting h matches w [] in
      (rw (same, all) at a, rw same at b, rw all at c)

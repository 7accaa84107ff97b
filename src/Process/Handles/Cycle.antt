-- ===== src/Process/Handles/Cycle.antt =====
-- `OpenAll` and `CloseAll` together, on Windows and Darwin.
use masche.Prelude.{
  some, ◌≡◌, refl, List, [], ◌∷◌, ◌++◌, ◌∙◌, ap, Option-cases, inl, inr, map, arith,
}
use mathlib.Core.List.{Perm}
use mathlib.Core.List.Perm
use masche.Go.{Error, Result-cases, open_failed}
use masche.Go.Int.{ℤ}
use masche.Cresponse.{Responses}
use masche.Process.{Processes, sort, get_all_pids, open_loop, open_all, close_all, Pids, Named}
use masche.Process.Handles.{HandleCalls, CProcess, open_from_pid, c_host}
use masche.Process.Handles.Balance.{Accounts, open_from_pid-balance, ClosesAny, close_all-balance}

append-perm : {A : Type 0} (x : A) (xs ys : List A) → Perm (x ∷ (xs ++ ys)) ((xs ++ x ∷ []) ++ ys)
append-perm x [] ys = Perm.refl (x ∷ ys)
append-perm x (y ∷ xs) ys =
    Perm.trans (Perm.swap y x (xs ++ ys)) (Perm.cons y (append-perm x xs ys))

map-append : {A B : Type 0} (f : A → B) (xs ys : List A) → map f (xs ++ ys) ≡ map f xs ++ map f ys
map-append f [] ys = refl
map-append f (x ∷ xs) ys = ap (λ t. f x ∷ t) (map-append f xs ys)

module _ {R : Responses} {C : HandleCalls R} (acc : Accounts C)
    (all_pids : R.World → Pids × R.World) (name : CProcess C → R.World → Named × R.World) where
  open acc use {allocation, handles}

  -- Listing the pids leaves handles and responses as they are.
  abbrev pub ListsOnly : Type 0
  ListsOnly =
      (w : R.World)
      → (allocation.live (all_pids w).1 ≡ allocation.live w) × (handles (all_pids w).1 ≡ handles w)

  abbrev hndls : List (CProcess C) → List C.Handle
  hndls ps = map (λ p. p.hndl) ps

  open_loop-balance :
      (pids : List ℤ) (ps : List (CProcess C)) (hs : List C.Handle) (softs : List Error)
      (w : R.World)
      → Perm (handles w) (hndls ps ++ hs)
      → let r = open_loop (c_host R C all_pids name) pids ps softs w in
        (allocation.live r.1 ≡ allocation.live w) × Perm (handles r.1) (hndls r.0.processes ++ hs)
  unfolding open_loop
  open_loop-balance [] ps hs softs w e = (refl, e)
  open_loop-balance (pid ∷ pids) ps hs softs w e =
      let (o, w') = open_from_pid R C pid w in
      let (live, open_now) = open_from_pid-balance acc pid w in
      elim (Result-cases o.process) [
        | inl (p, k) ↦
            let there : handles w' ≡ p.hndl ∷ handles w = rw k at open_now in
            let more : Perm (handles w') (hndls (ps ++ p ∷ []) ++ hs) =
              rw (there, map-append (λ (q : CProcess C). q.hndl) ps (p ∷ []))
                (Perm.trans (Perm.cons p.hndl e) (append-perm p.hndl (hndls ps) hs)) in
            let (a, b) = open_loop-balance pids (ps ++ p ∷ []) hs (softs ++ o.softerrors) w' more in
            rw (open_loop, k) (a ∙ live, b)
        | inr (x, k) ↦
            let same : handles w' ≡ handles w = rw k at open_now in
            let (a, b) =
              open_loop-balance pids ps hs (softs ++ open_failed pid x ∷ []) w' (rw same e) in
            rw (open_loop, k) (a ∙ live, b)
      ]

  open_all-balance :
      ListsOnly
      → (w : R.World)
      → let r = open_all (c_host R C all_pids name) w in
        (allocation.live r.1 ≡ allocation.live w)
        × Perm (handles r.1) (hndls r.0.processes ++ handles w)
  unfolding open_all get_all_pids
  open_all-balance lists w =
      let (listed, w1) = all_pids w in
      let (live, same) = lists w in
      elim (Option-cases listed.harderror) [
        | inr (x, k) ↦
            let nothing : Processes (CProcess C) = record {
              processes = [];
              harderror = some x;
              softerrors = listed.softerrors;
            } in
            let fails : open_all (c_host R C all_pids name) w ≡ (nothing, w1) = ground (arith, k) in
            rw fails (live, rw same (Perm.refl (handles w)))
        | inl k ↦
            let (a, b) =
              open_loop-balance (sort listed.pids) [] (handles w) listed.softerrors w1
                (rw same (Perm.refl (handles w))) in
            let opens : open_all (c_host R C all_pids name) w
                ≡ open_loop (c_host R C all_pids name) (sort listed.pids) [] listed.softerrors w1 =
              ground (arith, k) in
            rw opens (a ∙ live, b)
      ]

  -- Where each C function makes one response, which `response_free` frees, opening adds the handle
  -- it returns to the open ones, closing an open handle leaves the others open, whichever was
  -- opened last, and listing the pids leaves handles and responses as they are: `OpenAll` and then
  -- `CloseAll` on the processes it returned leave the same responses allocated and, up to their
  -- order, the same handles open as before, also if the listing or some openings fail.
  pub open_all-close_all :
      ListsOnly
      → ClosesAny acc
      → (w : R.World)
      → let host = c_host R C all_pids name in
        let r = open_all host w in
        let w' = (close_all host r.0.processes r.1).1 in
        (allocation.live w' ≡ allocation.live w) × Perm (handles w') (handles w)
  open_all-close_all lists closes w =
      let (live, open_now) = open_all-balance lists w in
      let r = open_all (c_host R C all_pids name) w in
      let (a, b) =
        close_all-balance acc closes all_pids name r.0.processes (handles w) r.1 open_now in
      (a ∙ live, b)

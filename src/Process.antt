-- ===== src/Process.antt =====
-- process/process.go: opening, naming and closing processes, over what the file of the operating
-- system provides.
pub mod Handles
pub mod Windows
pub mod Darwin
pub mod Sort
pub mod Matching
pub mod Opening
pub mod Linux
pub mod Info
use masche.Prelude.{
  ℕ, Bool, true, false, List, [], ◌∷◌, ◌++◌, Option, none, some, Bytes, leb, if◌then◌else◌,
}
use masche.Go.Int.{ℤ, leb_ℤ}
use masche.Go.{Error, Result, ok, err, open_failed}

-- The results `(pids, harderror, softerrors)`.
pub record Pids : Type 0 where
  pub pids : List ℤ
  pub harderror : Option Error
  pub softerrors : List Error

-- The results `(p, harderror, softerrors)` of `OpenFromPid`.
pub record Opened (Process : Type 0) : Type 0 where
  pub process : Result Process
  pub softerrors : List Error

-- The results `(name, harderror, softerrors)`.
pub record Named : Type 0 where
  pub name : Bytes
  pub harderror : Option Error
  pub softerrors : List Error

-- The results `(harderror, softerrors)`.
pub record Closed : Type 0 where
  pub harderror : Option Error
  pub softerrors : List Error

-- The functions of the file for the operating system, and the methods of its processes.
pub record Host : Type 1 where
  pub World : Type 0
  pub Process : Type 0
  pub get_all_pids : World → Pids × World
  pub open_from_pid : ℤ → World → Opened Process × World
  pub name : Process → World → Named × World
  pub close : Process → World → Closed × World

-- `sort.Ints`
insert : ℤ → List ℤ → List ℤ
insert n [] = n ∷ []
insert n (m ∷ ms) = if leb_ℤ n m then n ∷ m ∷ ms else m ∷ insert n ms

unfoldable pub sort : List ℤ → List ℤ
unfolding insert
sort [] = []
sort (n ∷ ns) = insert n (sort ns)

-- The results `(ps, harderror, softerrors)`.
pub record Processes (Process : Type 0) : Type 0 where
  pub processes : List Process
  pub harderror : Option Error
  pub softerrors : List Error

-- The results `(harderrors, softerrors)` of `CloseAll`.
pub record AllClosed : Type 0 where
  pub harderrors : List Error
  pub softerrors : List Error

abbrev pub list_of : Option Error → List Error
list_of none = []
list_of (some e) = e ∷ []

module _ (h : Host) where
  open h use {World, Process}

  unfoldable pub get_all_pids : World → Pids × World
  unfolding sort
  get_all_pids w =
      let (r, w') = h.get_all_pids w in
      elim r.harderror [
        | some e ↦ (record { pids = []; harderror = some e; softerrors = r.softerrors }, w')
        | none ↦ (record { pids = sort r.pids; harderror = none; softerrors = r.softerrors }, w')
      ]

  -- The loop of `OpenAll`, with `ps` and `softerrs` so far.
  unfoldable pub open_loop : List ℤ → List Process → List Error → World → Processes Process × World
  open_loop [] ps softerrs w =
      (record { processes = ps; harderror = none; softerrors = softerrs }, w)
  open_loop (pid ∷ pids) ps softerrs w =
      let (o, w') = h.open_from_pid pid w in
      elim o.process [
        | err e ↦ open_loop pids ps (softerrs ++ open_failed pid e ∷ []) w'
        | ok p ↦ open_loop pids (ps ++ p ∷ []) (softerrs ++ o.softerrors) w'
      ]

  unfoldable pub open_all : World → Processes Process × World
  open_all w =
      let (r, w') = get_all_pids w in
      elim r.harderror [
        | some e ↦ (record { processes = []; harderror = some e; softerrors = r.softerrors }, w')
        | none ↦ open_loop r.pids [] r.softerrors w'
      ]

  unfoldable pub close_loop : List Process → List Error → List Error → World → AllClosed × World
  close_loop [] hards softs w = (record { harderrors = hards; softerrors = softs }, w)
  close_loop (p ∷ ps) hards softs w =
      let (c, w') = h.close p w in
      close_loop ps (hards ++ list_of c.harderror) (softs ++ c.softerrors) w'

  unfoldable pub close_all : List Process → World → AllClosed × World
  close_all ps w = close_loop ps [] [] w

  module _ (matches : Bytes → Bool) where
    -- The loop of `OpenByName`, with `matchs` and the soft errors so far.
    unfoldable pub match_loop :
        List Process → List Process → List Error → World → Processes Process × World
    match_loop [] matchs softs w =
        (record { processes = matchs; harderror = none; softerrors = softs }, w)
    match_loop (p ∷ ps) matchs softs w =
        let (n, w') = h.name p w in
        let softs' = (softs ++ list_of n.harderror) ++ n.softerrors in
        elim (matches n.name) [
          | true ↦ match_loop ps (matchs ++ p ∷ []) softs' w'
          | false ↦ match_loop ps matchs softs' (h.close p w').1
        ]

    -- `matches` is `r.MatchString`; package regexp is not modelled.
    unfoldable pub open_by_name : World → Processes Process × World
    open_by_name w =
        let (r, w') = open_all w in
        elim r.harderror [
          | some e ↦ (record { processes = []; harderror = some e; softerrors = [] }, w')
          | none ↦ match_loop r.processes [] r.softerrors w'
        ]

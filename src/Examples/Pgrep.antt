-- ===== src/Examples/Pgrep.antt =====
-- examples/pgrep.go: the processes whose name matches a regular expression.
use masche.Prelude.{
  All, not, Option-cases, inl, inr, ◌≡◌, refl, Bool, List, [], ◌∷◌, ◌++◌, map, append_assoc,
  append-nil, sym, none, some, Bytes, codes, arith, keep,
}
use masche.Go.{Result, ok, err}
use masche.Go.Int.{ℤ}
use masche.Go.Number.Decimal.{decimal_ℤ}
use masche.Process.{Host, open_all, open_by_name}
use masche.Process.Matching.{Names, noting, open_by_name-noting, open_by_name_lem}
use masche.Examples.{Said, error_said, text_said, ended, fatal, Run}

-- `pid_of` is the method `Pid`.
module _ (h : Host) (pid_of : h.Process → ℤ) where
  -- `Process: %s\nPid: %d\n\n`
  unfoldable pub entry : h.Process → Bytes → Bytes
  entry p name =
      codes "Process: " ++ (name ++ (codes "\nPid: " ++ (decimal_ℤ (pid_of p) ++ codes "\n\n")))

  -- The loop over the processes, with what is printed so far. On a hard error of a name it is
  -- `err` that is printed, which is nil here.
  unfoldable pub print_loop : List h.Process → List Said → h.World → Run h.World
  unfolding entry
  print_loop [] said w = record { said = said; ending = ended; world = w }
  print_loop (p ∷ ps) said w =
      let (n, w') = h.name p w in
      elim n.harderror [
        | some e ↦ record { said = said; ending = fatal none; world = w' }
        | none ↦
            print_loop ps ((said ++ map error_said n.softerrors) ++ text_said (entry p n.name) ∷ [])
              w'
      ]

  -- `compile` is `regexp.Compile` with the method `MatchString`.
  unfoldable pub main : (Bytes → Result (Bytes → Bool)) → Bytes → h.World → Run h.World
  unfolding print_loop
  main compile reg w = elim (compile reg) [
    | err e ↦ record { said = []; ending = fatal (some e); world = w }
    | ok matches ↦
        let (r, w') = open_by_name h matches w in
        elim r.harderror [
          | some e ↦ record { said = []; ending = fatal none; world = w' }
          | none ↦ print_loop r.processes (map error_said r.softerrors) w'
        ]
  ]

  module _ (book : Names h) where
    abbrev pub entry_of : h.Process → Said
    entry_of p = text_said (entry p (book.name_of p))

    -- The name comes without an error.
    abbrev pub IsNamed : h.Process → Type 0
    IsNamed p =
        (w : h.World)
        → (h.name p w).0 ≡ record { name = book.name_of p; harderror = none; softerrors = [] }

    print_loop_lem :
        (ps : List h.Process) (said : List Said) (w : h.World)
        → All IsNamed ps
        → ((print_loop ps said w).said ≡ said ++ map entry_of ps)
          × ((print_loop ps said w).ending ≡ ended)
    unfolding print_loop
    print_loop_lem [] said w h = (sym (append-nil said), refl)
    print_loop_lem (p ∷ ps) said w (named, names) =
        let (a, b) = print_loop_lem ps (said ++ entry_of p ∷ []) (h.name p w).1 names in
        ground (
          arith,
          named w,
          append-nil said,
          a,
          b,
          append_assoc said (entry_of p ∷ []) (map entry_of ps),
        )

-- Printing closes nothing.
print_loop-noting :
    (h : Host) (pid_of : h.Process → ℤ) (ps : List h.Process) (said : List Said) (w : h.World)
    (l : List h.Process)
    → (print_loop (noting h) pid_of ps said (w, l)).world.1 ≡ l
unfolding print_loop
print_loop-noting h pid_of [] said w l = refl
print_loop-noting h pid_of (p ∷ ps) said w l =
    let (n, w') = h.name p w in
    elim (Option-cases n.harderror) [
      | inr (x, e) ↦ ground (arith, e)
      | inl e ↦ ground (
        arith,
        e,
        print_loop-noting h pid_of ps
            ((said ++ map error_said n.softerrors) ++ text_said (entry h pid_of p n.name) ∷ []) w'
            l,
      )
    ]

module _ {h : Host} (pid_of : h.Process → ℤ) (book : Names h) where
  -- If the regexp compiles, names do not change, `OpenAll` has no hard error and the names of the
  -- matching processes come without errors, the program pgrep prints the soft errors of
  -- `OpenByName` and, behind them, an entry for each opened process whose name matches, in order,
  -- and ends without `log.Fatal`. With a note of the calls of `Close` it calls it on the opened
  -- processes whose name does not match, once each, in order, and on no other.
  pub pgrep-main :
      (compile : Bytes → Result (Bytes → Bool)) (reg : Bytes) (matches : Bytes → Bool) (w : h.World)
      → compile reg ≡ ok matches
      → (open_all h w).0.harderror ≡ none
      → let ps = (open_all h w).0.processes in
        let found = keep (λ p. matches (book.name_of p)) ps in
        let r = main h pid_of compile reg w in
        All (IsNamed h pid_of book) found
        → (r.said
            ≡ map error_said (open_by_name h matches w).0.softerrors
              ++ map (entry_of h pid_of book) found)
          × (r.ending ≡ ended)
          × ((main (noting h) pid_of compile reg (w, [])).world.1
              ≡ keep (λ p. not (matches (book.name_of p))) ps)
  unfolding main
  pgrep-main compile reg matches w compiles e named =
      let (ps, good, closes) = open_by_name_lem book matches w e in
      let r = open_by_name h matches w in
      let same = open_by_name-noting h matches w [] in
      let said = map error_said r.0.softerrors in
      let (a, b) = print_loop_lem h pid_of book r.0.processes said r.1 (rw ps named) in
      let r' = open_by_name (noting h) matches (w, []) in
      let quiet =
        print_loop-noting h pid_of r'.0.processes (map error_said r'.0.softerrors) r'.1.0 r'.1.1 in
      (
        ground (arith, compiles, good, ps, a),
        ground (arith, compiles, good, b),
        ground (arith, compiles, good, same, quiet, closes),
      )

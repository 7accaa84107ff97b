-- ===== src/Examples/Listlibs.antt =====
-- examples/listlibs.go: the processes with a library whose path matches a regular expression.
pub mod Collects
use masche.Prelude.{
  ◌≡◌, refl, Bool, true, false, List, [], ◌∷◌, ◌++◌, map, append_assoc, append-nil, sym, Option,
  none, some, Bytes, codes, arith, All, if◌then◌else◌, List-cases, inl, inr,
}
use masche.Go.{Error, Result, ok, err}
use masche.Go.Int.{ℤ}
use masche.Go.Number.Decimal.{decimal_ℤ}
use masche.Process.{Host, open_all, close_all}
use masche.Listlibs.{Libraries}
use masche.Examples.{Said, error_said, text_said, Ending, ended, fatal, Run}

-- A Go map, `map[process.Process][]string`. It has no order.
abbrev pub Matches : Type 0 → Type 0
Matches Process = Process → Option (List Bytes)

abbrev pub no_matches : {Process : Type 0} → Matches Process
no_matches p = none

-- `matches[p] = libs`; `same` is the equality of the keys.
module _ {Process : Type 0} (same : Process → Process → Bool) where
  unfoldable pub put : Process → List Bytes → Matches Process → Matches Process
  put p libs matches q = if same p q then some libs else matches q

pub record WithLib (Process : Type 0) : Type 0 where
  pub matches : Matches Process
  pub harderror : Option Error
  pub softerrors : List Error

-- `matching` is `GetMatchingLoadedLibraries` with the regular expression.
module _ (h : Host) (same : h.Process → h.Process → Bool)
    (matching : h.Process → h.World → Libraries × h.World) where
  unfoldable pub with_libraries : h.Process → List Bytes → Matches h.Process → Matches h.Process
  unfolding put
  with_libraries p [] matches = matches
  with_libraries p (lib ∷ libs) matches = put same p (lib ∷ libs) matches

  -- The loop of `findProcWithLib`.
  unfoldable pub find_loop :
      List h.Process → Matches h.Process → List Error → h.World → WithLib h.Process × h.World
  unfolding with_libraries
  find_loop [] matches softs w =
      (record { matches = matches; harderror = none; softerrors = softs }, w)
  find_loop (p ∷ ps) matches softs w =
      let (r, w') = matching p w in
      elim r.harderror [
        | some e ↦ (record { matches = no_matches; harderror = some e; softerrors = softs }, w')
        | none ↦ find_loop ps (with_libraries p r.libraries matches) (softs ++ r.softerrors) w'
      ]

  unfoldable pub find_proc_with_lib : List h.Process → h.World → WithLib h.Process × h.World
  unfolding find_loop
  find_proc_with_lib ps w = find_loop ps no_matches [] w

-- `pid_of` is the method `Pid`, and `ranged` the entries of a map in the order in which `range`
-- goes through them.
module _ (h : Host) (same : h.Process → h.Process → Bool) (pid_of : h.Process → ℤ)
    (ranged : Matches h.Process → List (h.Process × List Bytes)) where
  unfoldable pub entry : h.Process → Bytes → Bytes
  entry p name = b'[' ∷ (decimal_ℤ (pid_of p) ++ (codes "] " ++ (name ++ codes "\n")))

  unfoldable pub library_line : Bytes → Said
  library_line lib = text_said (codes "\t" ++ (lib ++ codes "\n"))

  -- The loop over the map.
  unfoldable pub print_loop : List (h.Process × List Bytes) → List Said → h.World → Run h.World
  unfolding entry library_line
  print_loop [] said w = record { said = said; ending = ended; world = w }
  print_loop ((p, libs) ∷ m) said w =
      let (n, w') = h.name p w in
      elim n.harderror [
        | some e ↦ record { said = said; ending = fatal (some e); world = w' }
        | none ↦
            print_loop m ((said ++ text_said (entry p n.name) ∷ []) ++ map library_line libs) w'
      ]

  -- The deferred `CloseAll` runs only if no `log.Fatal` does.
  unfoldable pub closing : List h.Process → Run h.World → Run h.World
  closing ps r = elim r.ending [
    | ended ↦ record { said = r.said; ending = ended; world = (close_all h ps r.world).1 }
    | fatal e ↦ record { said = r.said; ending = fatal e; world = r.world }
  ]

  unfoldable pub main :
      (Bytes → Result (Bytes → Bool))
      → ((Bytes → Bool) → h.Process → h.World → Libraries × h.World)
      → Bytes
      → h.World
      → Run h.World
  unfolding find_proc_with_lib print_loop closing
  main compile matching rstr w = elim (compile rstr) [
    | err e ↦ record { said = []; ending = fatal (some e); world = w }
    | ok r ↦
        let (all, w1) = open_all h w in
        elim all.harderror [
          | some e ↦ record { said = []; ending = fatal (some e); world = w1 }
          | none ↦
              let said = map error_said all.softerrors in
              let (found, w2) = find_proc_with_lib h same (matching r) all.processes w1 in
              elim found.harderror [
                | some e ↦ record { said = said; ending = fatal (some e); world = w2 }
                | none ↦
                    let title : Said =
                      text_said (codes "Processes matching: " ++ (rstr ++ codes "\n")) in
                    closing all.processes (
                      print_loop (ranged found.matches)
                        ((said ++ map error_said found.softerrors) ++ title ∷ []) w2)
              ]
        ]
  ]

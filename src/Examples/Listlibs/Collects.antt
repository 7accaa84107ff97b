-- ===== src/Examples/Listlibs/Collects.antt =====
-- What `findProcWithLib` collects, and where it stops.
use masche.Prelude.{
  ◌≡◌, refl, Bool, true, false, List, [], ◌∷◌, ◌++◌, append_assoc, append-nil, Option, none, some,
  Bytes, arith, if◌then◌else◌, Option-cases, inl, inr,
}
use mathlib.Core.Path.{fun_ext}
use masche.Go.{Error}
use masche.Process.{Host}
use masche.Listlibs.{Libraries}
use masche.Examples.Listlibs.{
  put, Matches, no_matches, WithLib, with_libraries, find_loop, find_proc_with_lib,
}

abbrev or_else {ℓ} : {A : Type ℓ} → Option A → Option A → Option A
or_else (some x) d = some x
or_else none d = d

or_else-none {ℓ} : {A : Type ℓ} (o : Option A) → or_else o none ≡ o
or_else-none none = refl
or_else-none (some x) = refl

or_else-if {ℓ} :
    {A : Type ℓ} (o d : Option A) (x : A) (b : Bool)
    → or_else o (if b then some x else d) ≡ or_else (or_else o (if b then some x else none)) d
or_else-if (some y) d x b = refl
or_else-if none d x true = refl
or_else-if none d x false = refl

-- Libraries that come to the same each time they are asked for.
pub record Listing (h : Host) (matching : h.Process → h.World → Libraries × h.World) : Type 0 where
  pub libraries_of : h.Process → Libraries
  pub libraries_stay : (p : h.Process) (w : h.World) → (matching p w).0 ≡ libraries_of p

module _ {h : Host} (same : h.Process → h.Process → Bool)
    {matching : h.Process → h.World → Libraries × h.World} (book : Listing h matching) where
  abbrev pub first_error : List h.Process → Option Error
  first_error [] = none
  first_error (p ∷ ps) = elim (book.libraries_of p).harderror [
    | some e ↦ some e
    | none ↦ first_error ps
  ]

  -- The soft errors of the processes in front of the first hard error.
  abbrev pub softs_of : List h.Process → List Error
  softs_of [] = []
  softs_of (p ∷ ps) = elim (book.libraries_of p).harderror [
    | some e ↦ []
    | none ↦ (book.libraries_of p).softerrors ++ softs_of ps
  ]

  abbrev with_entry :
      h.Process → List Bytes → List (h.Process × List Bytes) → List (h.Process × List Bytes)
  with_entry p [] m = m
  with_entry p (lib ∷ libs) m = (p, lib ∷ libs) ∷ m

  -- The processes that have matching libraries, with these.
  abbrev pub having : List h.Process → List (h.Process × List Bytes)
  having [] = []
  having (p ∷ ps) = with_entry p (book.libraries_of p).libraries (having ps)

  -- What the last of these entries for a process gives it.
  abbrev pub entry_for : List (h.Process × List Bytes) → Matches h.Process
  entry_for [] q = none
  entry_for ((p, libs) ∷ m) q = or_else (entry_for m q) (if same p q then some libs else none)

  abbrev pub outcome : Option Error → Matches h.Process → List Error → WithLib h.Process
  outcome none matches softs = record { matches = matches; harderror = none; softerrors = softs }
  outcome (some e) matches softs = record {
    matches = no_matches;
    harderror = some e;
    softerrors = softs;
  }

  -- The entries over what was there before.
  abbrev over : Matches h.Process → List (h.Process × List Bytes) → Matches h.Process
  over m entries q = or_else (entry_for entries q) (m q)

  over-with_libraries :
      (p : h.Process) (libs : List Bytes) (m : Matches h.Process)
      (entries : List (h.Process × List Bytes))
      → over (with_libraries h same matching p libs m) entries ≡ over m (with_entry p libs entries)
  unfolding with_libraries put
  over-with_libraries p [] m entries = refl
  over-with_libraries p (l ∷ ls) m entries =
      fun_ext (λ q. or_else-if (entry_for entries q) (m q) (l ∷ ls) (same p q))

  find_loop_lem :
      (ps : List h.Process) (m : Matches h.Process) (softs : List Error) (w : h.World)
      → (find_loop h same matching ps m softs w).0
        ≡ outcome (first_error ps) (over m (having ps)) (softs ++ softs_of ps)
  unfolding find_loop
  find_loop_lem [] m softs w = rw (append-nil softs) refl
  find_loop_lem (p ∷ ps) m softs w =
      let l = book.libraries_of p in
      let w' = (matching p w).1 in
      elim (Option-cases l.harderror) [
        | inr (e, k) ↦ ground (arith, book.libraries_stay p w, k, append-nil softs)
        | inl k ↦ ground (
          arith,
          book.libraries_stay p w,
          k,
          find_loop_lem ps (with_libraries h same matching p l.libraries m) (softs ++ l.softerrors)
              w',
          over-with_libraries p l.libraries m (having ps),
          append_assoc softs l.softerrors (softs_of ps),
        )
      ]

  entry_for-over :
      (entries : List (h.Process × List Bytes)) → over no_matches entries ≡ entry_for entries
  entry_for-over entries = fun_ext (λ q. or_else-none (entry_for entries q))

  -- For processes whose matching libraries come to the same each time, `findProcWithLib` returns
  -- the map that gives those that have some these libraries, and the others nothing, if no list has
  -- a hard error. Otherwise it returns the first hard error and an empty map. The soft errors are
  -- those of the lists in front of the first hard error.
  pub find_proc_with_lib_lem :
      (ps : List h.Process) (w : h.World)
      → (find_proc_with_lib h same matching ps w).0
        ≡ outcome (first_error ps) (entry_for (having ps)) (softs_of ps)
  unfolding find_proc_with_lib
  find_proc_with_lib_lem ps w =
      rw (find_loop_lem ps no_matches [] w, entry_for-over (having ps)) refl

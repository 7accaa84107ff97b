-- ===== src/Listlibs/Loaded.antt =====
-- Which paths the list of libraries holds.
use masche.Prelude.{
  ℕ, ◌≡◌, refl, Bool, true, false, not, ◌&&◌, ◌||◌, List, [], ◌∷◌, ◌++◌, none, some, Bytes, codes,
  bytes_eq, bytes_eq→eq, bytes_eq_refl, if◌then◌else◌, arith, Bool-cases, inl, inr, keep,
  append_assoc, append-nil, sym,
}
use masche.Go.{Error}
use masche.Maps.{split_maps_file_entry}
use masche.System.{System}
use masche.Process.{Named}
use masche.Memaccess.Next.{is_error}
use masche.Listlibs.{
  in_slice, is_special, is_skipped, path_of, list_loop, match_libraries, list_loaded_libraries,
  get_matching_loaded_libraries,
}

-- What makes a path a library of a process: it is not the program, not /dev/zero, not empty and no
-- special mapping.
unfoldable pub is_library : Bytes → Bytes → Bool
is_library process_name path =
    not (bytes_eq path process_name)
    && (not (bytes_eq path (codes "/dev/zero") || bytes_eq path (codes "/dev/zero (deleted)"))
        && (not (bytes_eq path []) && not (is_special path)))

-- The lines have six items, the last of which are these paths.
abbrev pub HavePaths : List Bytes → List Bytes → Type 0
HavePaths [] [] = Unit
HavePaths [] (p ∷ ps) = ⊥
HavePaths (l ∷ ls) [] = ⊥
HavePaths (l ∷ ls) (p ∷ ps) = (path_of (split_maps_file_entry l) ≡ some p) × HavePaths ls ps

abbrev pub Distinct : List Bytes → Type 0
Distinct [] = Unit
Distinct (p ∷ ps) = (in_slice p ps ≡ false) × Distinct ps

skipped_lem :
    (name path : Bytes) (libs : List Bytes)
    → is_skipped name path libs ≡ (not (is_library name path) || in_slice path libs)
unfolding is_skipped is_library
skipped_lem name path libs = ground arith

in_slice-append :
    (q p : Bytes) (libs : List Bytes)
    → in_slice q (libs ++ p ∷ []) ≡ (in_slice q libs || bytes_eq q p)
unfolding in_slice
in_slice-append q p [] = ground arith
in_slice-append q p (l ∷ libs) = ground (arith, in_slice-append q p libs)

bytes_eq-sym : (s t : Bytes) → bytes_eq s t ≡ false → bytes_eq t s ≡ false
bytes_eq-sym s t h = elim (Bool-cases (bytes_eq t s)) [
  | inr e ↦ e
  | inl e ↦ absurd (ground (arith, bytes_eq→eq t s e, bytes_eq_refl s))
]

Distinct-append :
    (p : Bytes) (libs : List Bytes)
    → in_slice p libs ≡ false
    → Distinct libs
    → Distinct (libs ++ p ∷ [])
unfolding in_slice
Distinct-append p [] h d = (refl, tt)
Distinct-append p (l ∷ libs) h (a, d) = (
  ground (arith, in_slice-append l p libs, bytes_eq-sym p l),
  Distinct-append p libs (ground arith) d,
)

module _ (name : Bytes) (q p : Bytes) (ps libs : List Bytes) where
  old_path :
      is_skipped name p libs ≡ true
      → (in_slice q libs || (in_slice q ps && is_library name q))
        ≡ (in_slice q libs || (in_slice q (p ∷ ps) && is_library name q))
  unfolding in_slice
  old_path e = ground (arith, skipped_lem name p libs, bytes_eq→eq q p)

  new_path :
      is_skipped name p libs ≡ false
      → (in_slice q (libs ++ p ∷ []) || (in_slice q ps && is_library name q))
        ≡ (in_slice q libs || (in_slice q (p ∷ ps) && is_library name q))
  unfolding in_slice
  new_path e = ground (arith, skipped_lem name p libs, bytes_eq→eq q p, in_slice-append q p libs)

module _ (name : Bytes) (softs : List Error) where
  list_next :
      (l p : Bytes) (ls libs : List Bytes)
      → path_of (split_maps_file_entry l) ≡ some p
      → list_loop name softs (l ∷ ls) libs
        ≡ list_loop name softs ls (if is_skipped name p libs then libs else libs ++ p ∷ [])
  unfolding list_loop
  list_next l p ls libs h = ground arith

  list_loop_holds :
      (q : Bytes) (ls ps libs : List Bytes)
      → HavePaths ls ps
      → in_slice q (list_loop name softs ls libs).libraries
        ≡ (in_slice q libs || (in_slice q ps && is_library name q))
  list_loop_holds q [] [] libs h = unfold list_loop in_slice in ground arith
  list_loop_holds q [] (p ∷ ps) libs h = absurd h
  list_loop_holds q (l ∷ ls) [] libs h = absurd h
  list_loop_holds q (l ∷ ls) (p ∷ ps) libs (h, hs) =
      rw (list_next l p ls libs h) (elim (Bool-cases (is_skipped name p libs)) [
        | inl e ↦ rw (e, list_loop_holds q ls ps libs hs) (old_path name q p ps libs e)
        | inr e ↦ rw (e, list_loop_holds q ls ps (libs ++ p ∷ []) hs) (new_path name q p ps libs e)
      ])

  list_loop-Distinct :
      (ls ps libs : List Bytes)
      → HavePaths ls ps
      → Distinct libs
      → Distinct (list_loop name softs ls libs).libraries
        × ((list_loop name softs ls libs).harderror ≡ none)
  list_loop-Distinct [] [] libs h d = unfold list_loop in (d, refl)
  list_loop-Distinct [] (p ∷ ps) libs h d = absurd h
  list_loop-Distinct (l ∷ ls) [] libs h d = absurd h
  list_loop-Distinct (l ∷ ls) (p ∷ ps) libs (h, hs) d =
      rw (list_next l p ls libs h) (elim (Bool-cases (is_skipped name p libs)) [
        | inl e ↦ rw e (list_loop-Distinct ls ps libs hs d)
        | inr e ↦
            let fresh : in_slice p libs ≡ false = ground (arith, skipped_lem name p libs) in
            rw e (list_loop-Distinct ls ps (libs ++ p ∷ []) hs (Distinct-append p libs fresh d))
      ])

  -- From lines of six items the loop of `listLoadedLibraries` lists, with no hard error, each path
  -- that stands in one of them and is a library's, once, and nothing else.
  pub list_loop_lem :
      (ls ps : List Bytes)
      → HavePaths ls ps
      → ((q : Bytes)
          → in_slice q (list_loop name softs ls []).libraries
            ≡ (in_slice q ps && is_library name q))
        × Distinct (list_loop name softs ls []).libraries
        × ((list_loop name softs ls []).harderror ≡ none)
  list_loop_lem ls ps h =
      let (d, e) = list_loop-Distinct ls ps [] h tt in
      (λ q. unfold in_slice in list_loop_holds q ls ps [] h, d, e)

match_libraries-keep :
    (sys : System) (pid : ℕ) (p_name : sys.World → Named × sys.World) (matches : Bytes → Bool)
    (libs out : List Bytes)
    → match_libraries sys pid p_name matches libs out ≡ out ++ keep matches libs
unfolding match_libraries keep
match_libraries-keep sys pid p_name matches [] out = sym (append-nil out)
match_libraries-keep sys pid p_name matches (lib ∷ libs) out = elim (Bool-cases (matches lib)) [
  | inl e ↦
      rw (e, match_libraries-keep sys pid p_name matches libs (out ++ lib ∷ []))
        (append_assoc out (lib ∷ []) (keep matches libs))
  | inr e ↦ rw (e, match_libraries-keep sys pid p_name matches libs out)
]

-- `GetMatchingLoadedLibraries` returns the loaded libraries whose path matches, in order, with the
-- errors of `ListLoadedLibraries`, and no library if there is a hard error.
pub get_matching_loaded_libraries_lem :
    (sys : System) (pid : ℕ) (p_name : sys.World → Named × sys.World) (matches : Bytes → Bool)
    (w : sys.World)
    → let all = list_loaded_libraries sys pid p_name w in
      let r = get_matching_loaded_libraries sys pid p_name matches w in
      (r.0.libraries ≡ (if is_error all.0.harderror then [] else keep matches all.0.libraries))
      × (r.0.harderror ≡ all.0.harderror)
      × (r.0.softerrors ≡ all.0.softerrors)
      × (r.1 ≡ all.1)
unfolding get_matching_loaded_libraries
get_matching_loaded_libraries_lem sys pid p_name matches w = ground (
  arith,
  match_libraries-keep sys pid p_name matches (list_loaded_libraries sys pid p_name w).0.libraries
      [],
)

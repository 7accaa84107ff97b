-- ===== src/Listlibs/Listed.antt =====
-- listlibs/listlibs_darwin.go, and listlibs/listlibs_windows.go: the libraries that the C functions
-- list. The functions are a parameter; the C arrays that are freed are left out.
use masche.Prelude.{
  ℕ, true, false, List, [], ◌∷◌, ◌++◌, Option, none, some, Bytes, bytes_eq, ◌==◌, if◌then◌else◌,
}
use masche.Go.{modules_status}
use masche.Cresponse.{Responses, take_response}
use masche.Process.{Named}
use masche.Listlibs.{Libraries}

-- The C functions, for one handle. An entry of the list on Darwin may be a null pointer.
pub record LibraryCalls (R : Responses) : Type 0 where
  pub list_loaded_libraries : R.World → (List (Option Bytes) × R.Pointer) × R.World
  pub get_modules : R.World → (ℕ × List Bytes) × R.World

-- The loop on Darwin.
unfoldable pub paths_loop : Bytes → List (Option Bytes) → List Bytes → List Bytes
paths_loop process_name [] libraries = libraries
paths_loop process_name (none ∷ rest) libraries = paths_loop process_name rest libraries
paths_loop process_name (some str ∷ rest) libraries = elim (bytes_eq str process_name) [
  | true ↦ paths_loop process_name rest libraries
  | false ↦ paths_loop process_name rest (libraries ++ str ∷ [])
]

module _ (R : Responses) (L : LibraryCalls R) where
  -- `name` is `p.Name()`.
  unfoldable pub darwin_libraries : (R.World → Named × R.World) → R.World → Libraries × R.World
  unfolding take_response paths_loop
  darwin_libraries name w =
      let ((clibs, response), w1) = L.list_loaded_libraries w in
      let (errors, w2) = take_response R response w1 in
      elim errors.harderror [
        | some e ↦
            (record { libraries = []; harderror = some e; softerrors = errors.softerrors }, w2)
        | none ↦
            let (n, w3) = name w2 in
            elim n.harderror [
              | some e ↦ (
                record { libraries = []; harderror = some e; softerrors = errors.softerrors },
                w3,
              )
              | none ↦ (
                record {
                  libraries = paths_loop n.name clibs [];
                  harderror = none;
                  softerrors = errors.softerrors ++ n.softerrors;
                },
                w3,
              )
            ]
      ]

  unfoldable pub windows_libraries : R.World → Libraries × R.World
  windows_libraries w =
      let ((error, modules), w1) = L.get_modules w in
      if error == 0
      then (record { libraries = modules; harderror = none; softerrors = [] }, w1)
      else (record { libraries = []; harderror = some (modules_status error); softerrors = [] }, w1)

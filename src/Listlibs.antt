-- ===== src/Listlibs.antt =====
-- listlibs/listlibs.go and listlibs/listlibs_linux.go: the libraries that a process has loaded.
pub mod Loaded
pub mod Mapped
pub mod Listed
use masche.Prelude.{
  ℕ, Bool, true, false, ◌||◌, List, [], ◌∷◌, ◌++◌, Option, none, some, Bytes, codes, bytes_eq, ◌==◌,
  if◌then◌else◌,
}
use masche.Go.{Error, Result, ok, err, unrecognised_line}
use masche.Go.Lines.{lines}
use masche.Maps.{maps_file_path_from_pid, split_maps_file_entry}
use masche.System.{System}
use masche.Process.{Named}

-- The results `(libraries, harderror, softerrors)`.
pub record Libraries : Type 0 where
  pub libraries : List Bytes
  pub harderror : Option Error
  pub softerrors : List Error

unfoldable pub in_slice : Bytes → List Bytes → Bool
in_slice s [] = false
in_slice s (s2 ∷ slice) = if bytes_eq s s2 then true else in_slice s slice

-- `path[0] == '['`, behind the test for the empty path.
unfoldable pub is_special : Bytes → Bool
is_special [] = false
is_special (c ∷ path) = c == b'['

-- The `continue` tests, in order.
unfoldable pub is_skipped : Bytes → Bytes → List Bytes → Bool
is_skipped process_name path libs =
    bytes_eq path process_name
    || ((bytes_eq path (codes "/dev/zero") || bytes_eq path (codes "/dev/zero (deleted)"))
        || (bytes_eq path [] || (is_special path || in_slice path libs)))

-- The sixth item of a line; `none` where there are not six.
unfoldable pub path_of : List Bytes → Option Bytes
path_of (limits ∷ perms ∷ offset ∷ device ∷ inode ∷ path ∷ []) = some path
path_of _ = none

-- The loop over the lines, with `libs` so far.
unfoldable pub list_loop : Bytes → List Error → List Bytes → List Bytes → Libraries
list_loop process_name softs [] libs = record {
  libraries = libs;
  harderror = none;
  softerrors = [];
}
list_loop process_name softs (line ∷ rest) libs = elim (path_of (split_maps_file_entry line)) [
  | none ↦ record {
    libraries = libs;
    harderror = some (unrecognised_line line);
    softerrors = softs;
  }
  | some path ↦
      list_loop process_name softs rest
        (if is_skipped process_name path libs then libs else libs ++ path ∷ [])
]

module _ (sys : System) (pid : ℕ) (name : sys.World → Named × sys.World) where
  open sys use {World}

  -- `name` is the method `p.Name()` of the process.
  unfoldable pub list_loaded_libraries : World → Libraries × World
  list_loaded_libraries w =
      let (opened, w1) = sys.open_file (maps_file_path_from_pid pid) w in
      elim opened [
        | err e ↦ (record { libraries = []; harderror = some e; softerrors = [] }, w1)
        | ok file ↦
            let (n, w2) = name w1 in
            elim n.harderror [
              | some e ↦ (
                record { libraries = []; harderror = some e; softerrors = n.softerrors },
                sys.close file w2,
              )
              | none ↦
                  let (text, w3) = sys.contents file w2 in
                  (list_loop n.name n.softerrors (lines text.bytes) [], sys.close file w3)
            ]
      ]

  module _ (matches : Bytes → Bool) where
    unfoldable pub match_libraries : List Bytes → List Bytes → List Bytes
    match_libraries [] libraries = libraries
    match_libraries (lib ∷ libs) libraries =
        match_libraries libs (if matches lib then libraries ++ lib ∷ [] else libraries)

    -- `matches` is `r.MatchString`; package regexp is not modelled.
    unfoldable pub get_matching_loaded_libraries : World → Libraries × World
    get_matching_loaded_libraries w =
        let (all, w') = list_loaded_libraries w in
        elim all.harderror [
          | some e ↦
              (record { libraries = []; harderror = some e; softerrors = all.softerrors }, w')
          | none ↦ (
            record {
              libraries = match_libraries all.libraries [];
              harderror = none;
              softerrors = all.softerrors;
            },
            w',
          )
        ]

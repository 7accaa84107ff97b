-- ===== src/Listlibs/Mapped.antt =====
-- `ListLoadedLibraries` over a maps file of well-formed lines.
use masche.Prelude.{ℕ, ◌≡◌, refl, ◌&&◌, List, [], ◌∷◌, Option, none, Bytes, All, arith}
use masche.Go.{Error, ok}
use masche.Go.Lines.{lines}
use masche.Maps.{maps_file_path_from_pid}
use masche.Maps.Split.{split-render}
use masche.System.{System}
use masche.Process.{Named}
use masche.Memaccess.Linux.Stable.{Mapping, IsMapping, maps_text, maps_lines, lines-maps_text}
use masche.Listlibs.{path_of, in_slice, list_loop, list_loaded_libraries}
use masche.Listlibs.Loaded.{is_library, HavePaths, Distinct, list_loop_lem}

unfoldable pub paths_of : List Mapping → List Bytes
paths_of [] = []
paths_of (m ∷ ms) = m.line.path ∷ paths_of ms

maps_lines-HavePaths :
    (ms : List Mapping) → All IsMapping ms → HavePaths (maps_lines ms) (paths_of ms)
unfolding maps_lines paths_of path_of
maps_lines-HavePaths [] h = tt
maps_lines-HavePaths (m ∷ ms) (h, hs) =
    (rw (split-render m.line h.fields_ok), maps_lines-HavePaths ms hs)

module _ (sys : System) (pid : ℕ) (name : sys.World → Named × sys.World) (file : sys.File) where
  list_loaded_libraries_text :
      (text : Bytes) (read_error : Option Error) (n : Named) (w w1 w2 w3 : sys.World)
      → sys.open_file (maps_file_path_from_pid pid) w ≡ (ok file, w1)
      → name w1 ≡ (n, w2)
      → n.harderror ≡ none
      → sys.contents file w2 ≡ (record { bytes = text; error = read_error }, w3)
      → list_loaded_libraries sys pid name w
        ≡ (list_loop n.name n.softerrors (lines text) [], sys.close file w3)
  unfolding list_loaded_libraries
  list_loaded_libraries_text text read_error n w w1 w2 w3 opens names named reads =
      ground (arith, opens, names, reads)

  -- If the maps file opens and holds well-formed lines and the process has a name,
  -- `ListLoadedLibraries` returns, with no hard error, each path that stands in one of the lines
  -- and is a library's, once, and nothing else, and closes the file.
  pub list_loaded_libraries_lem :
      (ms : List Mapping) (read_error : Option Error) (n : Named) (w w1 w2 w3 : sys.World)
      → sys.open_file (maps_file_path_from_pid pid) w ≡ (ok file, w1)
      → name w1 ≡ (n, w2)
      → n.harderror ≡ none
      → sys.contents file w2 ≡ (record { bytes = maps_text ms; error = read_error }, w3)
      → All IsMapping ms
      → let r = list_loaded_libraries sys pid name w in
        ((q : Bytes) → in_slice q r.0.libraries ≡ (in_slice q (paths_of ms) && is_library n.name q))
        × Distinct r.0.libraries
        × (r.0.harderror ≡ none)
        × (r.1 ≡ sys.close file w3)
  list_loaded_libraries_lem ms read_error n w w1 w2 w3 opens names named reads h =
      let (holds, distinct, fine) =
        list_loop_lem n.name n.softerrors (maps_lines ms) (paths_of ms)
          (maps_lines-HavePaths ms h) in
      rw
        (
          list_loaded_libraries_text (maps_text ms) read_error n w w1 w2 w3 opens names named reads,
          lines-maps_text ms h,
        )
        (holds, distinct, fine, refl)

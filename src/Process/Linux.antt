-- ===== src/Process/Linux.antt =====
-- process/process_linux.go, and `processExe` of process/process_info_linux.go: names and the check
-- that opens a process. The list of pids is the system's.
pub mod Status
pub mod Listing
use masche.Prelude.{
  ℕ, Bool, true, false, ◌||◌, List, [], ◌∷◌, ◌++◌, Option, none, some, Bytes, codes, ◌==◌,
  if◌then◌else◌, length,
}
use masche.Go.{Error, Result, ok, err, permission_denied, no_name, exe_link}
use masche.Go.Lines.{newline, return, drop_cr}
use masche.Go.Int.{ℤ, uint}
use masche.Go.Number.Decimal.{atoi, decimal_ℤ}
use masche.Maps.{proc_path, mem_file_path_from_pid}
use masche.System.{System}
use masche.Process.{Pids, Opened, Named, Closed, Host}

-- The buffer of a `bufio.Reader`.
abbrev buffer_size : ℕ
buffer_size = 4096

-- What `ReadLine` returns call by call, if its second result is not looked at: the lines, and a
-- line that fills the buffer in parts. A carriage return at the end of a part goes to the next.
unfoldable pub read_lines_from : Bytes → Bytes → List Bytes
unfolding drop_cr
read_lines_from [] [] = []
read_lines_from [] (b ∷ cur) = (b ∷ cur) ∷ []
read_lines_from (c ∷ s) cur = elim (c == newline) [
  | true ↦ drop_cr cur ∷ read_lines_from s []
  | false ↦ elim (length (cur ++ c ∷ []) == buffer_size) [
    | false ↦ read_lines_from s (cur ++ c ∷ [])
    | true ↦ elim (c == return) [
      | true ↦ cur ∷ read_lines_from s (c ∷ [])
      | false ↦ (cur ++ c ∷ []) ∷ read_lines_from s []
    ]
  ]
]

-- `strings.HasPrefix(line, prefix)` with what follows the prefix.
unfoldable pub after_prefix : Bytes → Bytes → Option Bytes
after_prefix s [] = some s
after_prefix [] (p ∷ prefix) = none
after_prefix (c ∷ s) (p ∷ prefix) = if c == p then after_prefix s prefix else none

abbrev is_blank : ℕ → Bool
is_blank c = c == b' ' || c == 9

unfoldable pub trim_front : Bytes → Bytes
trim_front [] = []
trim_front (c ∷ s) = if is_blank c then trim_front s else c ∷ s

unfoldable pub trim_back : Bytes → Bytes
trim_back [] = []
trim_back (c ∷ s) = elim (trim_back s) [
  | [] ↦ if is_blank c then [] else c ∷ []
  | d ∷ t ↦ c ∷ d ∷ t
]

-- `strings.Trim(s, " \t")`
unfoldable pub trim : Bytes → Bytes
unfolding trim_front trim_back
trim s = trim_back (trim_front s)

abbrev named : Bytes → Named
named name = record { name = name; harderror = none; softerrors = [] }

abbrev unnamed : Error → Named
unnamed e = record { name = []; harderror = some e; softerrors = [] }

-- The loop over the lines of the status file, and what stands behind it.
unfoldable pub name_loop : ℤ → Option Error → List Bytes → Named
unfolding after_prefix trim
name_loop pid (some e) [] = unnamed e
name_loop pid none [] = unnamed (no_name pid)
name_loop pid error (line ∷ rest) = elim (after_prefix line (codes "Name:")) [
  | none ↦ name_loop pid error rest
  | some s ↦ named (codes "[" ++ (trim s ++ codes "]"))
]

-- The names of the directory that are numbers. `Atoi` fails on the others.
unfoldable pub pids_of : List Bytes → List ℤ
pids_of [] = []
pids_of (f ∷ files) = elim (atoi f) [ ok pid ↦ pid ∷ pids_of files | err e ↦ pids_of files ]

module _ (sys : System) where
  open sys use {World}

  unfoldable pub process_exe : ℤ → World → Result Bytes × World
  process_exe pid w =
      let path = proc_path (decimal_ℤ pid) (codes "exe") in
      let (r, w') = sys.eval_symlinks path w in
      elim r [ ok name ↦ (ok name, w') | err e ↦ (err (exe_link path e), w') ]

  unfoldable pub name : ℤ → World → Named × World
  unfolding process_exe name_loop read_lines_from
  name pid w =
      let (r, w1) = process_exe pid w in
      elim r [
        | ok exe ↦ (named exe, w1)
        | err _ ↦
            let (opened, w2) = sys.open_file (proc_path (decimal_ℤ pid) (codes "status")) w1 in
            elim opened [
              | err e ↦ (unnamed e, w2)
              | ok file ↦
                  let (text, w3) = sys.contents file w2 in
                  (name_loop pid text.error (read_lines_from text.bytes []), sys.close file w3)
            ]
      ]

  unfoldable pub close : ℤ → World → Closed × World
  close pid w = (record { harderror = none; softerrors = [] }, w)

  unfoldable pub open_from_pid : ℤ → World → Opened ℤ × World
  open_from_pid pid w =
      let (opened, w1) = sys.open_file (mem_file_path_from_pid (uint pid)) w in
      elim opened [
        | err _ ↦ (record { process = err (permission_denied pid); softerrors = [] }, w1)
        | ok file ↦ (record { process = ok pid; softerrors = [] }, sys.close file w1)
      ]

  unfoldable pub get_all_pids : World → Pids × World
  unfolding pids_of
  get_all_pids w =
      let (files, w1) = sys.read_dir (codes "/proc/") w in
      elim files [
        | err e ↦ (record { pids = []; harderror = some e; softerrors = [] }, w1)
        | ok names ↦ (record { pids = pids_of names; harderror = none; softerrors = [] }, w1)
      ]

-- What the file offers to the others.
abbrev pub linux_host : System → Host
linux_host sys = record {
  World = sys.World;
  Process = ℤ;
  get_all_pids = get_all_pids sys;
  open_from_pid = open_from_pid sys;
  name = name sys;
  close = close sys;
}

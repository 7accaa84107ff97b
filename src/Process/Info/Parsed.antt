-- ===== src/Process/Info/Parsed.antt =====
-- The status file of a process as a list of entries, and what is read from it.
use masche.Prelude.{
  ◌≡◌, ◌≢◌, refl, List, [], ◌∷◌, ◌++◌, append_assoc, append-nil, sym, Option, none, some, Bytes,
  codes, All, All-append, arith, Option-cases, inl, inr, ap, ◌∙◌,
}
use masche.Go.{Error, Result, Result-cases, ok, err}
use masche.Go.Int.{ℤ}
use masche.Go.Lines.{newline}
use masche.Go.Number.Decimal.{decimal_ℤ}
use masche.Go.Strings.{Lacks, split, split-append, split-Lacks}
use masche.Go.Strings.Space.{
  is_space, is_lead, trim_space, fields, first_or, ended_lines, NoSpace, IsApart, trim_space-first,
  ended_lines-append,
}
use masche.Maps.{proc_path}
use masche.System.{System}
use masche.Process.Linux.{process_exe}
use masche.Process.Info.{
  Field, id, Value, LinuxProcessInfo, no_info, field_for, Cache, get_field_name_for_key, is_string,
  string_to_reflect_value, set_field, status_components, parse_loop, parse_status_to_struct,
  with_executable, process_info,
}
use masche.Process.Info.Cached.{IsCache, get_field_name_for_key-IsCache}

-- A line of the file: a key, a value of one word, and what follows the value.
pub record Entry : Type 0 where
  pub key : Bytes
  pub value : Bytes
  pub rest : Bytes

pub record IsEntry (e : Entry) : Type 0 where
  pub key_ok : Lacks b':' e.key × Lacks newline e.key × (trim_space e.key ≡ e.key)
  pub value_ok : Lacks b':' e.value × NoSpace e.value × (e.value ≢ [])
  pub rest_ok : Lacks b':' e.rest × Lacks newline e.rest × IsApart e.rest

-- The value and the end of the line, behind the colon and a tab.
unfoldable pub tail_text : Entry → Bytes
tail_text e = 9 ∷ (e.value ++ (e.rest ++ newline ∷ []))

unfoldable pub line_text : Entry → Bytes
line_text e = e.key ++ b':' ∷ tail_text e

unfoldable pub status_text : List Entry → Bytes
status_text [] = []
status_text (e ∷ es) = line_text e ++ status_text es

unfoldable pub status_lines : List Entry → List Bytes
status_lines [] = []
status_lines (e ∷ es) = line_text e ∷ status_lines es

-- The struct that the entries set, one after the other, or the first error.
unfoldable pub set_all : List Entry → LinuxProcessInfo → Result LinuxProcessInfo
set_all [] lpi = ok lpi
set_all (e ∷ es) lpi = elim (field_for e.key) [
  | none ↦ set_all es lpi
  | some f ↦ elim (string_to_reflect_value e.value (is_string f)) [
    | err x ↦ err x
    | ok v ↦ set_all es (set_field f v lpi)
  ]
]

NoSpace-Lacks : (s : Bytes) → NoSpace s → Lacks newline s
NoSpace-Lacks [] h = tt
NoSpace-Lacks (c ∷ s) (h, hs) =
    (λ e. unfold is_lead in unfold is_space in ground arith, NoSpace-Lacks s hs)

IsApart-append : (t : Bytes) → IsApart t → IsApart (t ++ newline ∷ [])
unfolding is_space
IsApart-append [] h = refl
IsApart-append (c ∷ t) h = h

tail_text-Lacks : (e : Entry) → IsEntry e → Lacks b':' (tail_text e)
unfolding tail_text
tail_text-Lacks e h = (
  omega arith,
  All-append _ e.value (e.rest ++ newline ∷ []) h.value_ok.0
      (All-append _ e.rest (newline ∷ []) h.rest_ok.0 (omega arith)),
)

tail_text-first :
    (s : Bytes) (e : Entry) → IsEntry e → first_or s (fields (trim_space (tail_text e))) ≡ e.value
unfolding tail_text
tail_text-first s e h =
    trim_space-first s e.value (e.rest ++ newline ∷ []) 9 (unfold is_space in refl) h.value_ok.2
      h.value_ok.1 (IsApart-append e.rest h.rest_ok.2)

status_components-line_text :
    (e : Entry) → IsEntry e → status_components (split (line_text e) b':') ≡ some (e.key, e.value)
unfolding line_text status_components
status_components-line_text e h =
    rw
      (
        split-append e.key (tail_text e) b':' h.key_ok.0,
        split-Lacks (tail_text e) b':' (tail_text-Lacks e h),
      )
      (rw (h.key_ok.2, tail_text-first (trim_space (tail_text e)) e h))

-- How a parse ends, next to the struct that is set.
abbrev pub Agrees : Result LinuxProcessInfo → Option Error × Cache × LinuxProcessInfo → Type 0
Agrees (ok lpi) r = (r.0 ≡ none) × IsCache r.1 × (r.2 ≡ lpi)
Agrees (err x) r = (r.0 ≡ some x) × IsCache r.1

module _ (e : Entry) (es : List Entry) (lpi : LinuxProcessInfo) (f : Field) where
  set_all_skips : field_for e.key ≡ none → set_all (e ∷ es) lpi ≡ set_all es lpi
  unfolding set_all
  set_all_skips h = ground arith

  set_all_fails :
      (x : Error)
      → field_for e.key ≡ some f
      → string_to_reflect_value e.value (is_string f) ≡ err x
      → set_all (e ∷ es) lpi ≡ err x
  unfolding set_all
  set_all_fails x h k = ground arith

  set_all_sets :
      (v : Value)
      → field_for e.key ≡ some f
      → string_to_reflect_value e.value (is_string f) ≡ ok v
      → set_all (e ∷ es) lpi ≡ set_all es (set_field f v lpi)
  unfolding set_all
  set_all_sets v h k = ground arith

  module _ (cache : Cache) (h : IsEntry e) (c : IsCache cache) where
    abbrev cached : Cache
    cached = (get_field_name_for_key e.key cache).1

    parse_skips :
        field_for e.key ≡ none
        → parse_loop (status_lines (e ∷ es)) cache lpi ≡ parse_loop (status_lines es) cached lpi
    unfolding parse_loop status_lines
    parse_skips k =
        ground
          (arith, status_components-line_text e h, (get_field_name_for_key-IsCache e.key cache c).0)

    parse_fails :
        (x : Error)
        → field_for e.key ≡ some f
        → string_to_reflect_value e.value (is_string f) ≡ err x
        → parse_loop (status_lines (e ∷ es)) cache lpi ≡ (some x, cached, lpi)
    unfolding parse_loop status_lines
    parse_fails x k l =
        ground
          (arith, status_components-line_text e h, (get_field_name_for_key-IsCache e.key cache c).0)

    parse_sets :
        (v : Value)
        → field_for e.key ≡ some f
        → string_to_reflect_value e.value (is_string f) ≡ ok v
        → parse_loop (status_lines (e ∷ es)) cache lpi
          ≡ parse_loop (status_lines es) cached (set_field f v lpi)
    unfolding parse_loop status_lines
    parse_sets v k l =
        ground
          (arith, status_components-line_text e h, (get_field_name_for_key-IsCache e.key cache c).0)

parse_loop_lem :
    (es : List Entry)
    → All IsEntry es
    → (cache : Cache) (lpi : LinuxProcessInfo) → IsCache cache
    → Agrees (set_all es lpi) (parse_loop (status_lines es) cache lpi)
parse_loop_lem [] h cache lpi c = unfold set_all parse_loop status_lines in (refl, c, refl)
parse_loop_lem (e ∷ es) (h, hs) cache lpi c =
    let kept = (get_field_name_for_key-IsCache e.key cache c).1 in
    elim (Option-cases (field_for e.key)) [
      | inl k ↦
          rw (set_all_skips e es lpi id k, parse_skips e es lpi id cache h c k)
            (parse_loop_lem es hs (cached e es lpi id cache h c) lpi kept)
      | inr (f, k) ↦ elim (Result-cases (string_to_reflect_value e.value (is_string f))) [
        | inl (v, l) ↦
            rw (set_all_sets e es lpi f v k l, parse_sets e es lpi f cache h c v k l)
              (parse_loop_lem es hs (cached e es lpi f cache h c) (set_field f v lpi) kept)
        | inr (x, l) ↦
            rw (set_all_fails e es lpi f x k l, parse_fails e es lpi f cache h c x k l) (refl, kept)
      ]
    ]

abbrev line_body : Entry → Bytes
line_body e = e.key ++ b':' ∷ (9 ∷ (e.value ++ e.rest))

line_text-body : (e : Entry) (s : Bytes) → line_text e ++ s ≡ line_body e ++ newline ∷ s
unfolding line_text tail_text
line_text-body e s = rw (
  append_assoc e.key (b':' ∷ (9 ∷ (e.value ++ (e.rest ++ newline ∷ [])))) s,
  append_assoc e.key (b':' ∷ (9 ∷ (e.value ++ e.rest))) (newline ∷ s),
  append_assoc e.value (e.rest ++ newline ∷ []) s,
  append_assoc e.rest (newline ∷ []) s,
  append_assoc e.value e.rest (newline ∷ s),
)

line_body-Lacks : (e : Entry) → IsEntry e → Lacks newline (line_body e)
line_body-Lacks e h = All-append _ e.key (b':' ∷ (9 ∷ (e.value ++ e.rest))) h.key_ok.1 (
  omega arith,
  (omega arith, All-append _ e.value e.rest (NoSpace-Lacks e.value h.value_ok.1) h.rest_ok.1),
)

-- The lines that are read from the file.
ended_lines-status_text :
    (es : List Entry) → All IsEntry es → ended_lines (status_text es) [] ≡ status_lines es
unfolding status_text status_lines
ended_lines-status_text [] h = unfold ended_lines in refl
ended_lines-status_text (e ∷ es) (h, hs) =
    rw
      (
        line_text-body e (status_text es),
        ended_lines-append (line_body e) (status_text es) [] (line_body-Lacks e h),
        ended_lines-status_text es hs,
      )
      (ap (λ t. t ∷ status_lines es) (sym (line_text-body e []) ∙ append-nil (line_text e)))

-- From lines of a key without white space at its ends, a colon, a tab and a value that begins with
-- a word of bytes that neither are blanks nor begin the UTF-8 of other white space, followed by
-- nothing or a blank, without a further colon, and a cache with only right entries,
-- `parseStatusToStruct` sets the fields whose tags are the keys to the first words, in order, up to
-- the first word that is no integer for a field that is one, and then returns that error. The cache
-- keeps only right entries.
pub parse_status_to_struct_lem :
    (es : List Entry)
    → All IsEntry es
    → (cache : Cache) (lpi : LinuxProcessInfo) → IsCache cache
    → Agrees (set_all es lpi) (parse_status_to_struct (status_text es) cache lpi)
unfolding parse_status_to_struct
parse_status_to_struct_lem es h cache lpi c =
    rw (ended_lines-status_text es h) (parse_loop_lem es h cache lpi c)

module _ (sys : System) (pid : ℤ) (file : sys.File) where
  parsed_info :
      (status : Bytes) (cache : Cache) (lpi : LinuxProcessInfo) (w w1 w2 : sys.World)
      → sys.open_file (proc_path (decimal_ℤ pid) (codes "status")) w ≡ (ok file, w1)
      → sys.contents file w1 ≡ (record { bytes = status; error = none }, w2)
      → (parse_status_to_struct status cache no_info).0 ≡ none
      → (parse_status_to_struct status cache no_info).2 ≡ lpi
      → (process_info sys pid cache w).0
        ≡ ((with_executable sys pid lpi w2).0, (with_executable sys pid lpi w2).1)
  unfolding process_info
  parsed_info status cache lpi w w1 w2 opens reads fine set = ground (arith, opens, reads)

  exe_fails :
      (lpi : LinuxProcessInfo) (x : Error) (w w1 : sys.World)
      → process_exe sys pid w ≡ (err x, w1)
      → with_executable sys pid lpi w ≡ (record lpi { executable = [] }, some x, sys.warn x w1)
  unfolding with_executable
  exe_fails lpi x w w1 e = ground (arith, e)

  -- If the status file opens and is read whole, and consists of lines of a key without white space
  -- at its ends, a colon, a tab and a value that begins with a word of bytes that neither are
  -- blanks nor begin the UTF-8 of other white space, followed by nothing or a blank, without a
  -- further colon and without a word that is no integer where one is wanted, the cache has only
  -- right entries, and the link to the program cannot be followed, `processInfo` returns the fields
  -- of the status file with an empty executable, together with the error of the link.
  pub process_info_no_exe :
      (es : List Entry) (cache : Cache) (lpi : LinuxProcessInfo) (x : Error)
      (w w1 w2 w3 : sys.World)
      → All IsEntry es
      → IsCache cache
      → set_all es no_info ≡ ok lpi
      → sys.open_file (proc_path (decimal_ℤ pid) (codes "status")) w ≡ (ok file, w1)
      → sys.contents file w1 ≡ (record { bytes = status_text es; error = none }, w2)
      → process_exe sys pid w2 ≡ (err x, w3)
      → (process_info sys pid cache w).0 ≡ (record lpi { executable = [] }, some x)
  process_info_no_exe es cache lpi x w w1 w2 w3 h c set opens reads link =
      let agrees = rw set at (parse_status_to_struct_lem es h cache no_info c) in
      let e = parsed_info (status_text es) cache lpi w w1 w2 opens reads agrees.0 agrees.2 in
      rw (exe_fails lpi x w2 w3 link) at e

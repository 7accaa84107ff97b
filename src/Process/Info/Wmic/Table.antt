-- ===== src/Process/Info/Wmic/Table.antt =====
-- The values under the headings that wmic prints.
use masche.Prelude.{
  ℕ, zero, suc, ◌+◌, ◌≡◌, ◌≢◌, refl, sym, ◌∷◌, ◌++◌, Bytes, codes, length, length-append, drop,
  All-append, arith, replicate, length-replicate,
}
use masche.Go.{ok, done}
use masche.Go.Strings.{Lacks, split-append}
use masche.Go.Strings.Space.{trim_space}
use masche.Go.Lines.{newline}
use masche.Process.Info.Wmic.{
  heading_or, Columns, columns_of, process_of, wmic_process, or_minus_one, parse_int,
}
use masche.Process.Info.Wmic.Slices.{
  drop-part, drop-further, length-drop, find_heading-at, slice-cell, slice-rest,
}

-- The text of a column: a heading or a value, and what fills it up.
abbrev column : Bytes → ℕ → Bytes
column name width = name ++ replicate width 32

-- The five widths behind the headings.
pub record Widths : Type 0 where
  pub command : ℕ
  pub executable : ℕ
  pub handle : ℕ
  pub parent : ℕ
  pub rest : Bytes

-- The line of headings.
unfoldable pub heading_line : Widths → Bytes
heading_line w =
    column (codes "CommandLine") w.command
    ++ (codes "ExecutablePath"
        ++ (replicate w.executable 32
            ++ (codes "Handle"
                ++ (replicate w.handle 32
                    ++ (codes "ParentProcessId"
                        ++ (replicate w.parent 32 ++ (codes "SessionId" ++ w.rest)))))))

-- The texts that stand under the headings.
pub record Cells : Type 0 where
  pub command : Bytes
  pub executable : Bytes
  pub handle : Bytes
  pub parent : Bytes
  pub session : Bytes

unfoldable pub process_line : Cells → Bytes
process_line c = c.command ++ (c.executable ++ (c.handle ++ (c.parent ++ c.session)))

-- Each text is as wide as its column.
pub record Fits (w : Widths) (c : Cells) : Type 0 where
  pub command : length c.command ≡ 11 + w.command
  pub executable : length c.executable ≡ 14 + w.executable
  pub handle : length c.handle ≡ 6 + w.handle
  pub parent : length c.parent ≡ 15 + w.parent

Lacks-blanks : (c n : ℕ) → c ≢ 32 → Lacks c (replicate n 32)
Lacks-blanks c zero h = tt
Lacks-blanks c (suc n) h = ((λ e. h (sym e)), Lacks-blanks c n h)

column-Lacks : (c : ℕ) (name : Bytes) (n : ℕ) → c ≢ 32 → Lacks c name → Lacks c (column name n)
column-Lacks c name n ne h = All-append _ name (replicate n 32) h (Lacks-blanks c n ne)

length-column : (name : Bytes) (n : ℕ) → length (column name n) ≡ length name + n
length-column name n =
    omega (arith, length-append name (replicate n 32), length-replicate {A = ℕ} n 32)

abbrev columns : Widths → Columns
columns w = record {
  executable_index = 11 + w.command;
  handle_index = 25 + w.command + w.executable;
  parent_index = 31 + w.command + w.executable + w.handle;
  session_index = 46 + w.command + w.executable + w.handle + w.parent;
}

heading_line-columns : (w : Widths) → columns_of (heading_line w) ≡ ok (columns w)
unfolding columns_of heading_or heading_line
heading_line-columns w =
    let line = heading_line w in
    let post4 = w.rest in
    let post3 = replicate w.parent 32 ++ (codes "SessionId" ++ post4) in
    let post2 = replicate w.handle 32 ++ (codes "ParentProcessId" ++ post3) in
    let post1 = replicate w.executable 32 ++ (codes "Handle" ++ post2) in
    let gap1 = column (codes "CommandLine") w.command in
    let wide = length-column (codes "CommandLine") w.command in
    let f1 =
      find_heading-at line b'E' (codes "xecutablePath") post1 gap1 0 (11 + w.command)
        (25 + w.command)
        (column-Lacks b'E' (codes "CommandLine") w.command (omega arith) (omega arith)) refl
        (omega (arith, wide)) (omega arith) in
    let d1 =
      drop-part line gap1 (codes "ExecutablePath" ++ post1) 0 (11 + w.command) refl
        (omega (arith, wide)) in
    let e1 =
      drop-part line (codes "ExecutablePath") post1 (11 + w.command) (25 + w.command) d1
        (omega arith) in
    let blanks1 = length-replicate {A = ℕ} w.executable 32 in
    let f2 =
      find_heading-at line b'H' (codes "andle") post2 (replicate w.executable 32) (25 + w.command)
        (25 + w.command + w.executable) (31 + w.command + w.executable)
        (Lacks-blanks b'H' w.executable (omega arith)) e1 (omega (arith, blanks1)) (omega arith) in
    let d2 =
      drop-part line (replicate w.executable 32) (codes "Handle" ++ post2) (25 + w.command)
        (25 + w.command + w.executable) e1 (omega (arith, blanks1)) in
    let e2 =
      drop-part line (codes "Handle") post2 (25 + w.command + w.executable)
        (31 + w.command + w.executable) d2 (omega arith) in
    let blanks2 = length-replicate {A = ℕ} w.handle 32 in
    let f3 =
      find_heading-at line b'P' (codes "arentProcessId") post3 (replicate w.handle 32)
        (31 + w.command + w.executable) (31 + w.command + w.executable + w.handle)
        (46 + w.command + w.executable + w.handle) (Lacks-blanks b'P' w.handle (omega arith)) e2
        (omega (arith, blanks2)) (omega arith) in
    let d3 =
      drop-part line (replicate w.handle 32) (codes "ParentProcessId" ++ post3)
        (31 + w.command + w.executable) (31 + w.command + w.executable + w.handle) e2
        (omega (arith, blanks2)) in
    let e3 =
      drop-part line (codes "ParentProcessId") post3 (31 + w.command + w.executable + w.handle)
        (46 + w.command + w.executable + w.handle) d3 (omega arith) in
    let blanks3 = length-replicate {A = ℕ} w.parent 32 in
    let f4 =
      find_heading-at line b'S' (codes "essionId") post4 (replicate w.parent 32)
        (46 + w.command + w.executable + w.handle)
        (46 + w.command + w.executable + w.handle + w.parent)
        (55 + w.command + w.executable + w.handle + w.parent)
        (Lacks-blanks b'S' w.parent (omega arith)) e3 (omega (arith, blanks3)) (omega arith) in
    rw (columns_of, f1, f2, f3, f4) refl

process_line-cells :
    (w : Widths) (c : Cells)
    → Fits w c
    → process_of (columns w) (process_line c)
      ≡ done record {
        command = trim_space c.command;
        executable = trim_space c.executable;
        parent_process_id = or_minus_one (parse_int (trim_space c.parent));
        handle = or_minus_one (parse_int (trim_space c.handle));
        session_id = (parse_int (trim_space c.session)).0;
      }
unfolding process_of process_line
process_line-cells w c f =
    let line = process_line c in
    let at0 : drop 0 line ≡ c.command ++ (c.executable ++ (c.handle ++ (c.parent ++ c.session))) =
      refl in
    let at1 =
      drop-further c.command (c.executable ++ (c.handle ++ (c.parent ++ c.session))) 0 line at0 in
    let at2 =
      drop-further c.executable (c.handle ++ (c.parent ++ c.session)) (0 + length c.command) line
        at1 in
    let at3 =
      drop-further c.handle (c.parent ++ c.session) (0 + length c.command + length c.executable)
        line at2 in
    let at4 =
      drop-further c.parent c.session (0 + length c.command + length c.executable + length c.handle)
        line at3 in
    let i1 : 0 + length c.command ≡ 11 + w.command = omega (arith, f.command) in
    let i2 : 0 + length c.command + length c.executable ≡ 25 + w.command + w.executable =
      omega (arith, f.command, f.executable) in
    let i3 : 0 + length c.command + length c.executable + length c.handle
        ≡ 31 + w.command + w.executable + w.handle =
      omega (arith, f.command, f.executable, f.handle) in
    let i4 : 0 + length c.command + length c.executable + length c.handle + length c.parent
        ≡ 46 + w.command + w.executable + w.handle + w.parent =
      omega (arith, f.command, f.executable, f.handle, f.parent) in
    let s0 =
      slice-cell line c.command (c.executable ++ (c.handle ++ (c.parent ++ c.session))) 0
        (11 + w.command) at0 (omega (arith, f.command)) (omega (arith, f.command)) in
    let s1 =
      slice-cell line c.executable (c.handle ++ (c.parent ++ c.session)) (11 + w.command)
        (25 + w.command + w.executable) (rw i1 at at1) (omega (arith, f.executable))
        (omega (arith, f.executable)) in
    let s2 =
      slice-cell line c.handle (c.parent ++ c.session) (25 + w.command + w.executable)
        (31 + w.command + w.executable + w.handle) (rw i2 at at2) (omega (arith, f.handle))
        (omega (arith, f.handle)) in
    let s3 =
      slice-cell line c.parent c.session (31 + w.command + w.executable + w.handle)
        (46 + w.command + w.executable + w.handle + w.parent) (rw i3 at at3)
        (omega (arith, f.parent)) (omega (arith, f.parent)) in
    let long =
      length-drop (c.parent ++ c.session) (31 + w.command + w.executable + w.handle) line
        (rw i3 at at3) (omega (arith, f.parent, length-append c.parent c.session)) in
    let s4 =
      slice-rest line c.session (46 + w.command + w.executable + w.handle + w.parent) (rw i4 at at4)
        (omega (arith, long, f.parent, length-append c.parent c.session)) in
    rw (s0, s1, s2, s3, s4) refl

heading_line-Lacks : (w : Widths) → Lacks newline w.rest → Lacks newline (heading_line w)
unfolding heading_line
heading_line-Lacks w h =
    let blanks = Lacks-blanks newline in
    All-append _ (column (codes "CommandLine") w.command) _
      (column-Lacks newline (codes "CommandLine") w.command (omega arith) (omega arith))
      (All-append _ (codes "ExecutablePath") _ (omega arith) (
        All-append _ (replicate w.executable 32) _ (blanks w.executable (omega arith)) (
          All-append _ (codes "Handle") _ (omega arith) (
            All-append _ (replicate w.handle 32) _ (blanks w.handle (omega arith)) (
              All-append _ (codes "ParentProcessId") _ (omega arith) (
                All-append _ (replicate w.parent 32) _ (blanks w.parent (omega arith))
                  (All-append _ (codes "SessionId") w.rest (omega arith) h)))))))

-- From a line of the five headings with any number of spaces behind each and a line whose texts are
-- as wide as the columns over them, both without a line end inside, the parser of wmic's output
-- takes each text without its blanks as the value of its heading, with -1 for a handle or a parent
-- that is no number, and returns no error and does not panic.
pub wmic_process_lem :
    (w : Widths) (c : Cells) (rest : Bytes)
    → Fits w c
    → Lacks newline w.rest
    → Lacks newline (process_line c)
    → wmic_process (heading_line w ++ newline ∷ (process_line c ++ newline ∷ rest))
      ≡ done (
          ok record {
            command = trim_space c.command;
            executable = trim_space c.executable;
            parent_process_id = or_minus_one (parse_int (trim_space c.parent));
            handle = or_minus_one (parse_int (trim_space c.handle));
            session_id = (parse_int (trim_space c.session)).0;
          })
unfolding wmic_process
wmic_process_lem w c rest f h k =
    let e =
      split-append (heading_line w) (process_line c ++ newline ∷ rest) newline
        (heading_line-Lacks w h) in
    let g = split-append (process_line c) rest newline k in
    rw (wmic_process, e, g, heading_line-columns w, process_line-cells w c f) refl

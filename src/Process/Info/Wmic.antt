-- ===== src/Process/Info/Wmic.antt =====
-- process/process_info_windows.go: what wmic prints of a process, a line of headings and a line with
-- the values under them.
pub mod Slices
pub mod Table
use masche.Prelude.{
  ℕ, zero, suc, ◌+◌, ◌-◌, ◌^◌, ◌≡◌, refl, Bool, true, false, ◌&&◌, ◌||◌, List, [], ◌∷◌, ◌++◌,
  Option, none, some, Bytes, codes, bytes_eq, ◌==◌, ltb, leb, if◌then◌else◌, length, take, drop,
}
use masche.Go.{Error, Result, ok, err, Outcome, done, panic, ◌>>=◌, no_heading}
use masche.Go.Int.{ℤ, pos, negsuc}
use masche.Go.Strings.{split}
use masche.Go.Strings.Space.{trim_space}
use masche.Go.Lines.{newline}
use masche.Go.Number.{Scanned, number, syntax, range}
use masche.Go.Number.Decimal.{signed, unsigned}

-- The loop of `findHeading`; `none` stands for the two results -1.
unfoldable pub heading_loop : Bytes → Bytes → ℕ → ℕ → Option (ℕ × ℕ)
heading_loop line target zero at = none
heading_loop line target (suc rounds) at =
    let rest = heading_loop line target rounds (at + 1) in
    if ltb (length line) (at + length target)
    then none
    else if bytes_eq (take (length target) (drop at line)) target
    then some (at, at + length target)
    else rest

unfoldable pub find_heading : Bytes → Bytes → ℕ → Option (ℕ × ℕ)
unfolding heading_loop
find_heading line target start = heading_loop line target (length line - start) start

-- `ParseInt(s, 10, 64)`: on an error too it has a value.
unfoldable pub int_value : Bool → Scanned → ℤ × Bool
int_value neg syntax = (pos 0, false)
int_value false range = (pos (2 ^ 63 - 1), false)
int_value true range = (negsuc (2 ^ 63 - 1), false)
int_value false (number n) = if ltb n (2 ^ 63) then (pos n, true) else (pos (2 ^ 63 - 1), false)
int_value true (number zero) = (pos 0, true)
int_value true (number (suc n)) =
    if ltb n (2 ^ 63) then (negsuc n, true) else (negsuc (2 ^ 63 - 1), false)

unfoldable pub parse_int : Bytes → ℤ × Bool
unfolding int_value
parse_int s = let (neg, rest) = signed s in int_value neg (unsigned rest)

-- -1 in place of what is no number.
unfoldable pub or_minus_one : ℤ × Bool → ℤ
or_minus_one (n, true) = n
or_minus_one (n, false) = negsuc 0

-- `line[low:high]`, which panics out of range.
unfoldable pub slice : Bytes → ℕ → ℕ → Outcome Bytes
slice line low high =
    if leb low high && leb high (length line)
    then done (take (high - low) (drop low line))
    else panic

-- The results but the error.
pub record WmicProcess : Type 0 where
  pub command : Bytes
  pub executable : Bytes
  pub parent_process_id : ℤ
  pub handle : ℤ
  pub session_id : ℤ

-- Where the headings begin.
pub record Columns : Type 0 where
  pub executable_index : ℕ
  pub handle_index : ℕ
  pub parent_index : ℕ
  pub session_index : ℕ

unfoldable pub heading_or : Bytes → Option (ℕ × ℕ) → Result (ℕ × ℕ)
heading_or name none = err (no_heading name)
heading_or name (some found) = ok found

unfoldable pub columns_of : Bytes → Result Columns
unfolding find_heading heading_or
columns_of line =
    elim (heading_or (codes "ExecutablePath") (find_heading line (codes "ExecutablePath") 0)) [
      | err e ↦ err e
      | ok (executable_index, at1) ↦
          elim (heading_or (codes "Handle") (find_heading line (codes "Handle") at1)) [
            | err e ↦ err e
            | ok (handle_index, at2) ↦
                elim (heading_or (codes "ParentProcessId")
                  (find_heading line (codes "ParentProcessId") at2)) [
                    | err e ↦ err e
                    | ok (parent_index, at3) ↦
                        elim (heading_or (codes "SessionId")
                          (find_heading line (codes "SessionId") at3)) [
                            | err e ↦ err e
                            | ok (session_index, at4) ↦ ok record {
                              executable_index = executable_index;
                              handle_index = handle_index;
                              parent_index = parent_index;
                              session_index = session_index;
                            }
                          ]
                  ]
          ]
    ]

unfoldable pub process_of : Columns → Bytes → Outcome WmicProcess
unfolding slice parse_int or_minus_one
process_of c line = slice line 0 c.executable_index >>= λ command.
    slice line c.executable_index c.handle_index >>= λ executable.
    slice line c.handle_index c.parent_index >>= λ handle.
    slice line c.parent_index c.session_index >>= λ parent.
    slice line c.session_index (length line) >>= λ session. done record {
      command = trim_space command;
      executable = trim_space executable;
      parent_process_id = or_minus_one (parse_int (trim_space parent));
      handle = or_minus_one (parse_int (trim_space handle));
      session_id = (parse_int (trim_space session)).0;
    }

-- The part of `commandExecutablePPIdPPIdHandleAndSessionId` behind the call of wmic.
unfoldable pub wmic_process : Bytes → Outcome (Result WmicProcess)
unfolding columns_of process_of
wmic_process output = elim (split output newline) [
  | heading_line ∷ process_line ∷ _ ↦ elim (columns_of heading_line) [
    | err e ↦ done (err e)
    | ok c ↦ process_of c process_line >>= λ p. done (ok p)
  ]
  | _ ↦ panic
]

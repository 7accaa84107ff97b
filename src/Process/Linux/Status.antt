-- ===== src/Process/Linux/Status.antt =====
-- The name of a process whose program file is gone: it is read from the status file.
use masche.Prelude.{
  ◌+◌, ◌<◌, ◌≡◌, List, [], ◌∷◌, ◌++◌, append_assoc, append-nil, Option, none, some, Bytes, codes,
  length, length-append, arith, ap, ◌∙◌, All-append,
}
use masche.Go.{Error, ok, err}
use masche.Go.Strings.{Lacks}
use masche.Go.Lines.{newline, return, drop_cr, drop_cr-Lacks}
use masche.Go.Int.{ℤ}
use masche.Go.Number.Decimal.{decimal_ℤ}
use masche.Maps.{proc_path}
use masche.System.{System}
use masche.Process.Linux.{
  read_lines_from, after_prefix, trim, trim_front, name_loop, process_exe, name,
}

-- A line that ends before the reader's buffer is full is read whole.
read_lines_from-append :
    (l rest cur : Bytes)
    → Lacks newline l
    → length cur + length l < 4096
    → read_lines_from (l ++ newline ∷ rest) cur ≡ drop_cr (cur ++ l) ∷ read_lines_from rest []
unfolding read_lines_from
read_lines_from-append [] rest cur h b = rw (append-nil cur)
read_lines_from-append (c ∷ l) rest cur (h, hs) b =
    let ih =
      read_lines_from-append l rest (cur ++ c ∷ []) hs
        (omega (arith, b, length-append cur (c ∷ []))) in
    ground (arith, length-append cur (c ∷ []), append_assoc cur (c ∷ []) l, ih)

name_loop_first :
    (pid : ℤ) (error : Option Error) (comm : Bytes) (rest : List Bytes)
    → trim comm ≡ comm
    → name_loop pid error ((codes "Name:" ++ 9 ∷ comm) ∷ rest)
      ≡ record { name = codes "[" ++ (comm ++ codes "]"); harderror = none; softerrors = [] }
unfolding name_loop after_prefix trim trim_front
name_loop_first pid none comm rest h = rw h
name_loop_first pid (some e) comm rest h = rw h

module _ (sys : System) (pid : ℤ) (file : sys.File) where
  -- If the link to the program cannot be followed, and the status file opens and begins with the
  -- line of a name of fewer than 4090 bytes, with no line end in it and no blank at either side,
  -- then `Name` returns this name in square brackets, with no error, and closes the file.
  pub name_lem :
      (comm rest : Bytes) (no_exe : Error) (read_error : Option Error) (w w1 w2 w3 : sys.World)
      → sys.eval_symlinks (proc_path (decimal_ℤ pid) (codes "exe")) w ≡ (err no_exe, w1)
      → sys.open_file (proc_path (decimal_ℤ pid) (codes "status")) w1 ≡ (ok file, w2)
      → sys.contents file w2
        ≡ (record { bytes = (codes "Name:" ++ 9 ∷ comm) ++ newline ∷ rest; error = read_error }, w3)
      → Lacks newline comm
      → Lacks return comm
      → length comm < 4090
      → trim comm ≡ comm
      → name sys pid w ≡ (
        record { name = codes "[" ++ (comm ++ codes "]"); harderror = none; softerrors = [] },
        sys.close file w3,
      )
  unfolding name process_exe
  name_lem comm rest no_exe read_error w w1 w2 w3 link opens reads no_newline no_return short
        trimmed =
      let l : Bytes = codes "Name:" ++ 9 ∷ comm in
      let one_line : read_lines_from (l ++ newline ∷ rest) [] ≡ l ∷ read_lines_from rest [] =
        read_lines_from-append l rest []
          (All-append _ (codes "Name:") (9 ∷ comm) (omega arith) (omega arith, no_newline))
          (omega (arith, short))
        ∙ ap (λ t. t ∷ read_lines_from rest [])
            (drop_cr-Lacks l
              (All-append _ (codes "Name:") (9 ∷ comm) (omega arith) (omega arith, no_return))) in
      ground (
        arith,
        link,
        opens,
        reads,
        one_line,
        name_loop_first pid read_error comm (read_lines_from rest []) trimmed,
      )

-- ===== src/Process/Info/Windows/Printed.antt =====
-- `processInfo` on Windows from what wmic and tasklist print.
use masche.Prelude.{◌≡◌, none, some, Bytes, codes, [], ◌++◌, ◌∷◌, arith}
use masche.Go.{ok, err, done, Error}
use masche.Go.Int.{ℤ}
use masche.Go.Strings.{Lacks}
use masche.Go.Strings.Space.{trim_space}
use masche.Go.Lines.{newline}
use masche.Process.Info.Wmic.{WmicProcess, or_minus_one, parse_int}
use masche.Process.Info.Wmic.Table.{
  Widths, Cells, Fits, heading_line, process_line, wmic_process_lem,
}
use masche.Process.Info.Tasklist.User.{Table, IsTable, table_text, tasklist_user_lem}
use masche.Process.Info.Windows.{
  Programs, wmic_args, tasklist_args, with_user, process_info, command_and_more, user_name,
}

-- What the texts under wmic's headings say.
abbrev pub values : Cells → WmicProcess
values c = record {
  command = trim_space c.command;
  executable = trim_space c.executable;
  parent_process_id = or_minus_one (parse_int (trim_space c.parent));
  handle = or_minus_one (parse_int (trim_space c.handle));
  session_id = (parse_int (trim_space c.session)).0;
}

module _ (run : Programs) (pid : ℤ) (w w1 w2 : run.World) (widths : Widths) (c : Cells)
    (rest : Bytes) (fits : Fits widths c) (one_line : Lacks newline widths.rest)
    (one_process : Lacks newline (process_line c))
    (wmic_prints : run.output (codes "wmic") (wmic_args pid) w
      ≡ (ok (heading_line widths ++ newline ∷ (process_line c ++ newline ∷ rest)), w1)) where
  command_lem : command_and_more run pid w ≡ done (ok (values c), w1)
  unfolding command_and_more
  command_lem =
      ground (arith, wmic_prints, wmic_process_lem widths c rest fits one_line one_process)

  -- If wmic prints a line of the five headings with any number of spaces behind each and a line
  -- whose texts are as wide as the columns over them, and tasklist then prints, behind lines that
  -- do not begin with the name of the first column, a line of headings, of which none in front of
  -- the user's begins like it, a line of `=` as wide as each column and a line of texts as wide,
  -- with a domain, a backslash, a user and blanks for the user, each without a line end inside,
  -- `processInfo` on Windows returns no error. Its fields are the texts under the headings without
  -- their blanks, with -1 for a handle or a parent that is no number, and the user without the
  -- domain.
  pub windows-process_info :
      (t : Table)
      → IsTable t
      → run.output (codes "tasklist") (tasklist_args pid) w1 ≡ (ok (table_text t), w2)
      → process_info run pid w ≡ done ((with_user pid (values c) t.user.user, none), w2)
  unfolding process_info user_name
  windows-process_info t h prints = ground (arith, command_lem, prints, tasklist_user_lem t h)

  -- Without tasklist's output the rest is filled in.
  pub windows-process_info_no_user :
      (e : Error)
      → run.output (codes "tasklist") (tasklist_args pid) w1 ≡ (err e, w2)
      → process_info run pid w ≡ done ((with_user pid (values c) [], some e), w2)
  unfolding process_info user_name
  windows-process_info_no_user e fails = ground (arith, command_lem, fails)

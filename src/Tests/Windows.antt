-- ===== src/Tests/Windows.antt =====
-- What wmic and tasklist print of one process, and what is read from it.
use masche.Prelude.{
  ◌≡◌, refl, drop, [], ◌∷◌, ◌++◌, none, Bytes, bytes_eq, codes, if◌then◌else◌, arith,
}
use masche.Go.{ok, done}
use masche.Go.Int.{pos}
use masche.Go.Lines.{newline}
use masche.Go.Number.{digit}
use masche.Go.Number.Decimal.{scan_decimal, signed, unsigned}
use masche.Go.Strings.Space.{
  trim_space, trim_end, skip_from, space_width, is_space2, is_space3, skip_space, is_space,
}
use masche.Process.Info.Wmic.{parse_int, int_value, or_minus_one}
use masche.Process.Info.Wmic.Table.{heading_line, process_line}
use masche.Process.Info.Tasklist.{is_heading}
use masche.Process.Info.Tasklist.Table.{Column, headings, separators, cells}
use masche.Process.Info.Tasklist.User.{
  UserCell, Table, IsTable, table_text, user_cell, top_line, bar_line, value_line,
}
use masche.Process.Info.Windows.{Programs, process_info, with_user}
use masche.Process.Info.Windows.Printed.{windows-process_info}
use masche.Tests.Wmic.{widths, cells as wmic_cells}

abbrev image : Column
image = record { first = b'I'; others = codes "mage Name   "; cell = codes "a b.exe      " }

abbrev id : Column
id = record { first = b' '; others = codes "    PID"; cell = codes "   4711 " }

abbrev joe : UserCell
joe = record { first = b'N'; domain = codes "T X"; user = codes "joe"; blanks = 3 }

abbrev table : Table
table = record {
  before = codes "\r" ∷ [];
  columns = image ∷ id ∷ [];
  user = joe;
  more_headings = codes "   CPU Time\r";
  more_separators = codes "========\r";
  more_cells = codes " 0:00:01\r";
  rest = [];
}

table_ok : IsTable table
unfolding skip_space top_line bar_line value_line headings separators cells user_cell is_heading
    trim_end skip_from space_width is_space2 is_space3 is_space
table_ok = record {
  lines_before = ((omega arith, refl), tt);
  each_column = (
    record { other_name = omega arith; same_width = refl },
    (record { other_name = omega arith; same_width = refl }, tt),
  );
  user_column = record { no_space = refl; one_name = omega arith; no_blank = refl };
  image_name = (drop 10 (top_line table), refl);
  heading_one = omega arith;
  separator_one = omega arith;
  process_one = omega arith;
}

abbrev wmic_text : Bytes
wmic_text = heading_line widths ++ newline ∷ (process_line wmic_cells ++ newline ∷ [])

-- Every program but wmic is tasklist.
abbrev programs : Programs
programs = record {
  World = Unit {0};
  output = λ program args w.
      (ok (if bytes_eq program (codes "wmic") then wmic_text else table_text table), w);
}

windows-process_info_example :
    process_info programs (pos 4711) tt
    ≡ done (
      (
        record {
          id = pos 4711;
          handle = pos 4711;
          command = codes "a.exe /all";
          user_name = codes "joe";
          parent_process_id = pos 12;
          executable = codes "C:\\bin\\a.exe";
          session_id = pos 1;
        },
        none,
      ),
      tt,
    )
unfolding trim_space trim_end skip_from space_width is_space2 is_space3 skip_space is_space
    parse_int int_value or_minus_one scan_decimal signed unsigned digit bytes_eq with_user
windows-process_info_example =
    windows-process_info programs (pos 4711) tt tt tt widths wmic_cells []
      record { command = refl; executable = refl; handle = refl; parent = refl } (omega arith)
      (unfold process_line in omega arith) refl table table_ok refl

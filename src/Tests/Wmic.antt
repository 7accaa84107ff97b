-- ===== src/Tests/Wmic.antt =====
-- What wmic prints of one process.
use masche.Prelude.{codes}
use masche.Process.Info.Wmic.Table.{Widths, Cells}

abbrev pub widths : Widths
widths = record { command = 2; executable = 1; handle = 2; parent = 2; rest = codes "  \r" }

abbrev pub cells : Cells
cells = record {
  command = codes "a.exe /all   ";
  executable = codes "C:\\bin\\a.exe   ";
  handle = codes "4711    ";
  parent = codes "12               ";
  session = codes "1  \r";
}

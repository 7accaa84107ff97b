-- ===== src/System.antt =====
-- The operating system, as the Linux files of the packages reach it through package os and
-- path/filepath: opening, reading and closing files, listing a directory and resolving links. Its
-- state changes with every call.
use masche.Prelude.{ℕ, List, Option, Bytes}
use masche.Go.{Error, Result}

-- The bytes that a read got, and the error that ended it early.
pub record Read : Type 0 where
  pub bytes : Bytes
  pub error : Option Error

pub record System : Type 1 where
  pub World : Type 0
  pub File : Type 0
  pub open_file : Bytes → World → Result File × World
  -- what a reader of the whole file gets, up to its end or to a read error
  pub contents : File → World → Read × World
  pub read_at : File → ℕ → ℕ → World → Read × World
  pub close : File → World → World
  -- a warning that is printed to the standard error
  pub warn : Error → World → World
  pub read_dir : Bytes → World → Result (List Bytes) × World
  pub eval_symlinks : Bytes → World → Result Bytes × World

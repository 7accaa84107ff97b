-- ===== src/Examples.antt =====
-- The programs of examples/: what they print and how they end.
pub mod Pgrep
pub mod Listlibs
use masche.Prelude.{List, Option, Bytes}
use masche.Go.{Error}

-- Errors and texts that are printed, in order.
pub data Said : Type 0 where
  error_said : Error → Said
  text_said : Bytes → Said

-- `fatal` is `log.Fatal` of an error value, which may be nil.
pub data Ending : Type 0 where
  ended : Ending
  fatal : Option Error → Ending

pub record Run (World : Type 0) : Type 0 where
  pub said : List Said
  pub ending : Ending
  pub world : World

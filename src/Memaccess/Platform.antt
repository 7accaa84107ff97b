-- ===== src/Memaccess/Platform.antt =====
-- What memaccess.go asks of the file that the build takes in for the operating system:
-- `nextMemoryRegion` and `copyMemory`, for one process. The state is all that the two may depend
-- on, the memory of the process included, and may change with every call.
use masche.Prelude.{ℕ}
use masche.Go.{Outcome}
use masche.Memaccess.Region.{Found, Copied}

pub record Platform : Type 1 where
  pub World : Type 0
  pub next_memory_region : ℕ → World → Outcome (Found × World)
  pub copy_memory : ℕ → ℕ → World → Outcome (Copied × World)

-- ===== src/Memaccess/Walk/Moving.antt =====
-- `WalkMemory` over a layout that may change with every call.
use masche.Prelude.{ℕ, ◌+◌, ◌≤◌, ◌<◌, ◌≡◌, none}
use masche.Go.{done}
use masche.Memaccess.Region.{Copied}
use masche.Memaccess.Platform.{Platform}
use masche.Memaccess.Walk.{copy_memory}
use masche.Memaccess.Walk.Ends.{Ends}

-- Each copy of at least one byte from the addresses 1 to `high` returns without a hard error.
abbrev pub CopiesWell : Platform → ℕ → Type 0
CopiesWell P high =
    (a m : ℕ) (w : P.World)
    → 0 < a
    → 0 < m
    → a + m ≤ high
    → (c : Copied) × (w' : P.World) × (P.copy_memory a m w ≡ done (c, w')) × (c.harderror ≡ none)

-- ===== src/Memaccess/Sliding.antt =====
-- `SlidingWalkMemory`: the callback that it gives to `WalkMemory`, as a step on the variables that
-- the callback captures, and the call behind the walk.
pub mod Buffer
pub mod Invariant
pub mod Reuse
pub mod Short
pub mod Feeding
pub mod Views
pub mod Full
pub mod Owed
pub mod Behind
pub mod Shown
pub mod Whole
pub mod Stable
use masche.Prelude.{
  ℕ, ◌+◌, ◌/◌, ◌%◌, Bool, true, false, not, ◌&&◌, List, [], ◌∷◌, ◌++◌, Option, none, some, Bytes,
  ◌==◌, ltb, if◌then◌else◌, length, take, drop, replicate,
}
use masche.Go.{Error, Outcome, done, ◌>>=◌, add64, odd_buffer_size}
use masche.Memaccess.Platform.{Platform}
use masche.Memaccess.Walk.{WalkFunc, Reply, walk_memory}

-- Go's `copy(dst, src)`.
unfoldable pub copy : Bytes → Bytes → Bytes
copy [] src = []
copy (d ∷ dst) [] = d ∷ dst
copy (d ∷ dst) (b ∷ src) = b ∷ copy dst src

-- The captured variables, and what the user's callback keeps.
pub record Window (S : Type 0) : Type 0 where
  pub buffer : Bytes
  pub starts_at : ℕ
  pub buffered : ℕ
  pub user : S

module _ {S : Type 0} (walk_fn : WalkFunc S) (buf_size : ℕ) where
  abbrev half : ℕ
  half = buf_size / 2

  -- `walkFn(currentBufferStartsAt, buffer[:n])`
  unfoldable pub show : ℕ → Window S → Bool × Window S
  show n b =
      let (more, s) = walk_fn b.starts_at (take n b.buffer) b.user in (more, record b { user = s })

  unfoldable pub from_another_region : ℕ → Window S → Bool
  from_another_region address b =
      ltb (add64 b.starts_at b.buffered) address && not (b.starts_at == 0)

  -- A half-full buffer of the region before is shown, and the buffer is empty again.
  unfoldable pub leave_region : ℕ → Window S → Bool × Window S
  leave_region address b =
      if from_another_region address b
      then (if ltb 0 b.buffered && ltb b.buffered buf_size
          then (let (more, b') = show b.buffered b in
              if more then (true, record b' { buffered = 0 }) else (false, b'))
          else (true, record b { buffered = 0 }))
      else (true, b)

  -- The first buffer of a region.
  unfoldable pub begin_region : ℕ → Bytes → Window S → Bool × Window S
  begin_region address current b =
      let b1 : Window S = record b { buffer = copy b.buffer current; starts_at = address } in
      if length current == half
      then (true, record b1 { buffered = half })
      else show (length current) b1

  -- `copy(buffer, buffer[:halfBufferSize])` and the step of the start address.
  unfoldable pub slide : Window S → Window S
  slide b =
      if b.buffered == buf_size
      then record b {
        buffer = copy b.buffer (take half b.buffer);
        starts_at = add64 b.starts_at half;
      }
      else b

  -- The new bytes go into the second half, and the window is shown.
  unfoldable pub fill : Bytes → Window S → Bool × Window S
  fill current b =
      let b1 : Window S = record b {
        buffer = take half b.buffer ++ copy (drop half b.buffer) current;
      } in
      let (more, b2) = show (half + length current) b1 in
      if more
      then (true, record b2 { buffered = if length current == half then buf_size else 0 })
      else (false, b2)

  unfoldable pub slide_step : WalkFunc (Window S)
  slide_step address current b =
      let (more, b1) = leave_region address b in
      if more
      then (if b1.buffered == 0 then begin_region address current b1 else fill current (slide b1))
      else (false, b1)

  -- "If we only have half buffer filled we haven't called walkFn yet with it"
  unfoldable pub finish : Window S → Window S
  finish b = if b.buffered == half then (show half b).1 else b

  abbrev pub fresh : S → Window S
  fresh s = record { buffer = replicate buf_size 0; starts_at = 0; buffered = 0; user = s }

  module _ (P : Platform) (fuel : ℕ) where
    unfoldable pub sliding_walk_memory : ℕ → P.World → S → Outcome (Reply × P.World × S)
    sliding_walk_memory start w s =
        if buf_size % 2 == 0
        then (walk_memory P slide_step fuel half start w (fresh s) >>= λ (r, w', b).
            done (r, w', (finish b).user))
        else (let refused : Reply = record { harderror = some odd_buffer_size; softerrors = [] } in
            done (refused, w, s))

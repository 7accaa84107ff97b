-- ===== src/Memaccess/Sliding/Invariant.antt =====
-- What holds of the captured variables of `SlidingWalkMemory` between any two calls.
use masche.Prelude.{ℕ, ◌+◌, ◌/◌, ◌≡◌, ◌⊎◌, inl, inr, Bytes, ◌==◌, length, take, arith, Bool-cases}
use masche.Memaccess.Walk.{WalkFunc}
use masche.Memaccess.Sliding.{Window, show, leave_region, begin_region, slide, fill, slide_step}
use masche.Memaccess.Sliding.Buffer.{length-copy, length-fill}

-- Nothing is buffered, one half, or both.
abbrev pub Filled : ℕ → ℕ → Type 0
Filled buf_size n = (n ≡ 0) ⊎ ((n ≡ buf_size / 2) ⊎ (n ≡ buf_size))

abbrev pub IsWindow : {S : Type 0} → ℕ → Window S → Type 0
IsWindow buf_size b = (length b.buffer ≡ buf_size / 2 + buf_size / 2) × Filled buf_size b.buffered

module _ {S : Type 0} (walk_fn : WalkFunc S) (buf_size : ℕ) where
  leave_region-IsWindow :
      (address : ℕ) (b : Window S)
      → IsWindow buf_size b
      → IsWindow buf_size (leave_region walk_fn buf_size address b).1
  unfolding leave_region show
  leave_region-IsWindow address b h = ground (arith, h.0)

  begin_region-IsWindow :
      (address : ℕ) (current : Bytes) (b : Window S)
      → IsWindow buf_size b
      → IsWindow buf_size (begin_region walk_fn buf_size address current b).1
  unfolding begin_region show
  begin_region-IsWindow address current b h = ground (arith, length-copy b.buffer current)

  slide-IsWindow :
      (b : Window S) → IsWindow buf_size b → IsWindow buf_size (slide walk_fn buf_size b)
  unfolding slide
  slide-IsWindow b h = ground (arith, length-copy b.buffer (take (buf_size / 2) b.buffer))

  fill-IsWindow :
      (current : Bytes) (b : Window S)
      → IsWindow buf_size b
      → IsWindow buf_size (fill walk_fn buf_size current b).1
  unfolding fill show
  fill-IsWindow current b h = ground (arith, length-fill b.buffer current (buf_size / 2))

  -- After every call of the callback of `SlidingWalkMemory`, whatever it is shown and whatever
  -- `walkFn` answers, the buffer has twice `halfBufferSize` bytes, and `bufferedBytes` is 0,
  -- `halfBufferSize` or `bufferSize`, if this is so before the call.
  pub slide_step-IsWindow :
      (address : ℕ) (current : Bytes) (b : Window S)
      → IsWindow buf_size b
      → IsWindow buf_size (slide_step walk_fn buf_size address current b).1
  unfolding slide_step
  slide_step-IsWindow address current b h =
      let left = (leave_region walk_fn buf_size address b).1 in
      let l = leave_region-IsWindow address b h in
      elim (Bool-cases (leave_region walk_fn buf_size address b).0) [
        | inr off ↦ rw off l
        | inl on ↦ elim (Bool-cases (left.buffered == 0)) [
          | inl empty ↦ rw (on, empty) (begin_region-IsWindow address current left l)
          | inr some_there ↦
              rw (on, some_there)
                (fill-IsWindow current (slide walk_fn buf_size left) (slide-IsWindow left l))
        ]
      ]

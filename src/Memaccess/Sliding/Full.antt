-- ===== src/Memaccess/Sliding/Full.antt =====
-- What the user's callback sees of a run behind its first two pieces.
use masche.Prelude.{
  ℕ, ◌+◌, ◌-◌, ◌/◌, ◌%◌, ◌≤◌, ◌<◌, ◌≡◌, Bool, true, ◌++◌, Bytes, ◌==◌, if◌then◌else◌, length, take,
  drop, arith, ◌∙◌,
}
use masche.Go.{word}
use masche.Memaccess.Image.{read, length-read}
use masche.Memaccess.Walk.{WalkFunc}
use masche.Memaccess.Sliding.{
  copy, Window, show, from_another_region, leave_region, slide, fill, slide_step,
}
use masche.Memaccess.Sliding.Buffer.{take-fill, length-fill, copy_self, front-fill}

module _ {S : Type 0} (walk_fn : WalkFunc S) (memory : ℕ → ℕ) (buf_size : ℕ)
    (even : buf_size % 2 ≡ 0) (pos : 0 < buf_size) where
  abbrev half : ℕ
  half = buf_size / 2

  -- A window with two pieces, of which the first is `front`, that ends at an address.
  pub record IsFull (front : Bytes) (x : ℕ) (b : Window S) : Type 0 where
    pub long : length b.buffer ≡ half + half
    pub both : b.buffered ≡ buf_size
    pub ends : x ≡ b.starts_at + buf_size
    pub front_there : take half b.buffer ≡ front

  module _ (front : Bytes) (x : ℕ) (b : Window S) (full : IsFull front x b) where
    slide_full : x < word → slide walk_fn buf_size b ≡ record b { starts_at = x - half }
    unfolding slide
    slide_full w = ground (arith, copy_self half b.buffer, full.both, full.ends)

    leave_full : x < word → leave_region walk_fn buf_size x b ≡ (true, b)
    unfolding leave_region from_another_region
    leave_full w = ground (arith, full.both, full.ends)

    module _ (m : ℕ) (p : 0 < m) (h : m ≤ half) (w : x < word) where
      abbrev pub joined : Bool × S
      joined = walk_fn (x - half) (front ++ read memory x m) b.user

      abbrev pub behind : Window S
      behind = record {
        buffer = take half b.buffer ++ copy (drop half b.buffer) (read memory x m);
        starts_at = x - half;
        buffered = if joined.0 then (if m == half then buf_size else 0) else buf_size;
        user = joined.1;
      }

      fill_full :
          fill walk_fn buf_size (read memory x m) (record b { starts_at = x - half })
          ≡ (joined.0, behind)
      unfolding fill show
      fill_full =
          let n : length (read memory x m) ≡ m = length-read memory m x in
          let whole =
            rw n at (take-fill b.buffer (read memory x m) half full.long (omega (arith, n, h))) in
          ground (arith, n, whole, full.front_there, full.both)

      pub step_full : slide_step walk_fn buf_size x (read memory x m) b ≡ (joined.0, behind)
      unfolding slide_step
      step_full = ground (arith, leave_full w, full.both, slide_full w, fill_full)

      pub length-behind : length behind.buffer ≡ half + half
      length-behind = length-fill b.buffer (read memory x m) half full.long

      pub behind-IsFull : m ≡ half → joined.0 ≡ true → IsFull front (x + m) behind
      behind-IsFull e on = record {
        long = length-behind;
        both = ground arith;
        ends = omega (arith, full.ends, e);
        front_there = front-fill b.buffer (read memory x m) half full.long ∙ full.front_there;
      }

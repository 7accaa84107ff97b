-- ===== src/Memaccess/Sliding/Reuse.antt =====
-- Which buffers the user's callback sees while the walk goes through one run of full pieces.
use masche.Prelude.{
  ℕ, zero, suc, ◌+◌, ◌*◌, ◌/◌, ◌%◌, ◌<◌, ◌≡◌, refl, true, List, [], ◌∷◌, ◌++◌, append_assoc,
  append-nil, Bytes, length, take, drop, arith, ap, ◌∙◌, sym, replicate, length-replicate,
}
use masche.Go.{word}
use masche.Memaccess.Image.{read, length-read}
use masche.Memaccess.Walk.{WalkFunc}
use masche.Memaccess.Walk.Visits.{feed, feed_on}
use masche.Memaccess.Sliding.{
  copy, Window, show, from_another_region, leave_region, begin_region, slide, fill, slide_step,
  fresh,
}
use masche.Memaccess.Sliding.Buffer.{
  length-copy, take-copy, take-fill, length-fill, copy_self, front-fill,
}

-- A callback that notes what it is shown and goes on.
abbrev pub Shown : Type 0
Shown = List (ℕ × Bytes)

abbrev pub note : WalkFunc Shown
note a bytes log = (true, log ++ (a, bytes) ∷ [])

module _ (memory : ℕ → ℕ) (buf_size : ℕ) (even : buf_size % 2 ≡ 0) (pos : 0 < buf_size) where
  abbrev half : ℕ
  half = buf_size / 2

  abbrev IsFull : Window Shown → Type 0
  IsFull b = (length b.buffer ≡ half + half) × (b.buffered ≡ buf_size)

  leave_full :
      (b : Window Shown)
      → b.starts_at + b.buffered < word
      → leave_region note buf_size (b.starts_at + b.buffered) b ≡ (true, b)
  unfolding leave_region from_another_region
  leave_full b h = ground arith

  slide_full :
      (b : Window Shown)
      → IsFull b
      → b.starts_at + buf_size < word
      → slide note buf_size b ≡ record b { starts_at = b.starts_at + half }
  unfolding slide
  slide_full b (l, f) h = ground (arith, copy_self half b.buffer)

  fill_full :
      (b : Window Shown) (current : Bytes)
      → length b.buffer ≡ half + half
      → length current ≡ half
      → fill note buf_size current b ≡ (
        true,
        record {
          buffer = take half b.buffer ++ copy (drop half b.buffer) current;
          starts_at = b.starts_at;
          buffered = buf_size;
          user = b.user ++ (b.starts_at, take half b.buffer ++ current) ∷ [];
        },
      )
  unfolding fill show
  fill_full b current l c = ground (arith, take-fill b.buffer current half l (omega arith))

  -- The full window behind the next piece.
  abbrev next_window : Window Shown → Bytes → Window Shown
  next_window b current = record {
    buffer = take half b.buffer ++ copy (drop half b.buffer) current;
    starts_at = b.starts_at + half;
    buffered = buf_size;
    user = b.user ++ (b.starts_at + half, take half b.buffer ++ current) ∷ [];
  }

  step_full :
      (b : Window Shown) (current : Bytes)
      → IsFull b
      → b.starts_at + buf_size < word
      → length current ≡ half
      → slide_step note buf_size (b.starts_at + buf_size) current b ≡ (true, next_window b current)
  unfolding slide_step
  step_full b current (l, f) h c =
      let at_end = rw f at (leave_full b (rw f h)) in
      ground (
        arith,
        at_end,
        slide_full b (l, f) h,
        fill_full (record b { starts_at = b.starts_at + half }) current l c,
      )

  -- `n` pieces of half a buffer, one behind the other.
  abbrev pub row : ℕ → ℕ → List (ℕ × ℕ)
  row zero a = []
  row (suc n) a = (a, half) ∷ row n (a + half)

  -- The windows that a walk shows from `a` on: behind the piece `c`, each next piece.
  abbrev pub stale : ℕ → ℕ → Bytes → Shown
  stale zero a c = []
  stale (suc n) a c = (a, c ++ read memory (a + half) half) ∷ stale n (a + half) c

  abbrev step_fn : WalkFunc (Window Shown)
  step_fn = slide_step note buf_size

  rows_full :
      (n a : ℕ) (b : Window Shown)
      → IsFull b
      → a ≡ b.starts_at + buf_size
      → a + n * half < word
      → (feed memory step_fn (row n a) b).1.user
        ≡ b.user ++ stale n (b.starts_at + half) (take half b.buffer)
  rows_full zero a b full e h = unfold feed in sym (append-nil b.user)
  rows_full (suc n) a b (l, f) e h =
      let current = read memory a half in
      let b' = next_window b current in
      let stepped : step_fn a current b ≡ (true, b') = rw e (
        step_full b (read memory (b.starts_at + buf_size) half) (l, f) (omega arith)
          (length-read memory half (b.starts_at + buf_size))) in
      let ih =
        rows_full n (a + half) b' (length-fill b.buffer current half l, refl) (omega arith)
          (omega arith) in
      let here : b.starts_at + half + half ≡ a = omega arith in
      rw (
        feed_on memory step_fn a half (row n (a + half)) b (ap (λ r. r.0) stepped),
        stepped,
        ih,
        front-fill b.buffer current half l,
        here,
        append_assoc,
      )

  first_step :
      (a : ℕ) (current : Bytes)
      → length current ≡ half
      → step_fn a current (fresh note buf_size []) ≡ (
        true,
        record {
          buffer = copy (replicate buf_size 0) current;
          starts_at = a;
          buffered = half;
          user = [];
        },
      )
  unfolding slide_step leave_region from_another_region begin_region
  first_step a current c = ground arith

  second_step :
      (b : Window Shown) (current : Bytes)
      → length b.buffer ≡ half + half
      → b.buffered ≡ half
      → b.starts_at + half < word
      → length current ≡ half
      → step_fn (b.starts_at + half) current b ≡ (
        true,
        record {
          buffer = take half b.buffer ++ copy (drop half b.buffer) current;
          starts_at = b.starts_at;
          buffered = buf_size;
          user = b.user ++ (b.starts_at, take half b.buffer ++ current) ∷ [];
        },
      )
  unfolding slide_step slide
  second_step b current l f h c =
      let at_end = rw f at (leave_full b (rw f h)) in
      ground (arith, at_end, fill_full b current l c)

  -- In a run of at least two full pieces, above address 0 and below 2 ^ 64, with an even buffer
  -- size above 0 and a callback that notes what it is shown and goes on, the first buffer that the
  -- callback sees is the run's first two pieces. Each later one has the first piece of the run in
  -- its first half, whatever stands at its address.
  pub run_shown :
      (n a : ℕ)
      → 0 < a
      → a + (n + 2) * half < word
      → (feed memory step_fn (row (suc (suc n)) a) (fresh note buf_size [])).1.user
        ≡ (a, read memory a half ++ read memory (a + half) half)
          ∷ stale n (a + half) (read memory a half)
  run_shown n a p h =
      let c0 = read memory a half in
      let c1 = read memory (a + half) half in
      let zeros : Bytes = replicate buf_size 0 in
      let b1 : Window Shown = record {
        buffer = copy zeros c0;
        starts_at = a;
        buffered = half;
        user = [];
      } in
      let n0 : length c0 ≡ half = length-read memory half a in
      let long : length b1.buffer ≡ half + half =
        length-copy zeros c0 ∙ length-replicate {A = ℕ} buf_size 0 ∙ omega arith in
      let front : take half b1.buffer ≡ c0 =
        rw n0 at (take-copy zeros c0 (omega (arith, length-replicate {A = ℕ} buf_size 0))) in
      let e1 = first_step a c0 n0 in
      let e2 = second_step b1 c1 long refl (omega arith) (length-read memory half (a + half)) in
      let b2 : Window Shown = (step_fn (a + half) c1 b1).1 in
      let ends : a + half + half ≡ a + buf_size = omega arith in
      let ih =
        rows_full n (a + half + half)
          (record {
            buffer = take half b1.buffer ++ copy (drop half b1.buffer) c1;
            starts_at = a;
            buffered = buf_size;
            user = (a, take half b1.buffer ++ c1) ∷ [];
          })
          (length-fill b1.buffer c1 half long, refl) ends (omega arith) in
      rw (
        feed_on memory step_fn a half (row (suc n) (a + half)) (fresh note buf_size [])
            (ap (λ r. r.0) e1),
        e1,
        feed_on memory step_fn (a + half) half (row n (a + half + half)) b1 (ap (λ r. r.0) e2),
        e2,
        ih,
        front-fill b1.buffer c1 half long,
        front,
      )

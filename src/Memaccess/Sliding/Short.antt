-- ===== src/Memaccess/Sliding/Short.antt =====
-- What the user's callback sees of runs that fit in the buffer.
use masche.Prelude.{
  ℕ, ◌+◌, ◌/◌, ◌%◌, ◌≤◌, ◌<◌, ◌≡◌, refl, ◌⊎◌, inl, Bool, true, false, List, [], ◌∷◌, ◌++◌, Bytes,
  ◌==◌, if◌then◌else◌, length, take, drop, arith,
}
use masche.Go.{word}
use masche.Memaccess.Region.{MemoryRegion}
use masche.Memaccess.Image.{read, length-read}
use masche.Memaccess.Walk.{WalkFunc}
use masche.Memaccess.Walk.Visits.{read-append}
use masche.Memaccess.Sliding.{
  copy, Window, show, from_another_region, leave_region, begin_region, slide, fill, slide_step,
  finish,
}
use masche.Memaccess.Sliding.Buffer.{take-copy, take-fill}

-- The callback at each run, whole, until it returns false.
unfoldable pub feed_runs : {S : Type 0} → (ℕ → ℕ) → WalkFunc S → List MemoryRegion → S → Bool × S
feed_runs memory walk_fn [] s = (true, s)
feed_runs memory walk_fn (r ∷ rs) s =
    let (more, s') = walk_fn r.address (read memory r.address r.size) s in
    elim more [ true ↦ feed_runs memory walk_fn rs s' | false ↦ (false, s') ]

-- A callback that has returned false keeps what it has when it is shown the front of the same
-- buffer again.
abbrev pub Settles : {S : Type 0} → WalkFunc S → Type 0
Settles {S} walk_fn =
    (a : ℕ) (x y : Bytes) (s : S)
    → (walk_fn a (x ++ y) s).0 ≡ false
    → (walk_fn a x (walk_fn a (x ++ y) s).1).1 ≡ (walk_fn a (x ++ y) s).1

module _ {S : Type 0} (walk_fn : WalkFunc S) (memory : ℕ → ℕ) (buf_size : ℕ)
    (even : buf_size % 2 ≡ 0) (pos : 0 < buf_size) where
  abbrev pub half : ℕ
  half = buf_size / 2

  abbrev pub step : WalkFunc (Window S)
  step = slide_step walk_fn buf_size

  abbrev pub IsLong : Window S → Type 0
  IsLong b = length b.buffer ≡ half + half

  -- A window that is empty at a new region.
  abbrev pub Clean : ℕ → Window S → Type 0
  Clean a b = IsLong b × (leave_region walk_fn buf_size a b ≡ (true, record b { buffered = 0 }))

  -- Where the last region ended before, and nothing is to be shown.
  pub leave_clean :
      (a : ℕ) (b : Window S)
      → 0 < b.starts_at
      → b.starts_at + b.buffered < a
      → a < word
      → (b.buffered ≡ 0) ⊎ (b.buffered ≡ buf_size)
      → leave_region walk_fn buf_size a b ≡ (true, record b { buffered = 0 })
  unfolding leave_region from_another_region
  leave_clean a b p h l f = ground (arith)

  pub leave_empty :
      (a : ℕ) (b : Window S)
      → b.starts_at ≡ 0
      → b.buffered ≡ 0
      → leave_region walk_fn buf_size a b ≡ (true, record b { buffered = 0 })
  unfolding leave_region from_another_region
  leave_empty a b h f = ground (arith)

  module _ (a : ℕ) (b : Window S) (clean : Clean a b) where
    abbrev pub callback : ℕ → Bool × S
    callback m = walk_fn a (read memory a m) b.user

    -- A piece that ends a region is shown at once.
    pub step_short :
        (m : ℕ)
        → m < half
        → step a (read memory a m) b ≡ (
          (callback m).0,
          record {
            buffer = copy b.buffer (read memory a m);
            starts_at = a;
            buffered = 0;
            user = (callback m).1;
          },
        )
    unfolding slide_step begin_region show
    step_short m h =
        let n : length (read memory a m) ≡ m = length-read memory m a in
        let front = rw n at (take-copy b.buffer (read memory a m) (omega (arith, n, clean.0))) in
        ground (arith, clean.1, n, front)

    -- A piece of half a buffer is kept.
    pub step-half : step a (read memory a half) b ≡ (
      true,
      record {
        buffer = copy b.buffer (read memory a half);
        starts_at = a;
        buffered = half;
        user = b.user;
      },
    )
    unfolding slide_step begin_region
    step-half = ground (arith, clean.1, length-read memory half a)

  -- The first half of a run is in the buffer, and is still to be shown.
  pub record Owes (r : MemoryRegion) (b : Window S) : Type 0 where
    pub long : IsLong b
    pub begins : b.starts_at ≡ r.address
    pub half_full : b.buffered ≡ half
    pub front : take half b.buffer ≡ read memory r.address half

  module _ (r : MemoryRegion) (b : Window S) (o : Owes r b) where
    abbrev pub both_halves : ℕ → Bool × S
    both_halves k = walk_fn r.address (read memory r.address (half + k)) b.user

    -- A second piece is shown together with the first.
    pub step_second :
        (k : ℕ)
        → 0 < k
        → k ≤ half
        → r.address + half < word
        → step (r.address + half) (read memory (r.address + half) k) b ≡ (
          (both_halves k).0,
          record {
            buffer =
                take half b.buffer ++ copy (drop half b.buffer) (read memory (r.address + half) k);
            starts_at = r.address;
            buffered = if (both_halves k).0 then (if k == half then buf_size else 0) else half;
            user = (both_halves k).1;
          },
        )
    unfolding slide_step leave_region from_another_region slide fill show
    step_second k p h w =
        let n : length (read memory (r.address + half) k) ≡ k =
          length-read memory k (r.address + half) in
        let whole = rw n at (
          take-fill b.buffer (read memory (r.address + half) k) half o.long
            (omega (arith, n, h))) in
        ground
          (arith, o.begins, o.half_full, o.front, n, whole, read-append memory half k r.address)

    abbrev pub first_half : Bool × S
    first_half = walk_fn r.address (read memory r.address half) b.user

    abbrev pub shown_window : Window S
    shown_window = record b { buffered = 0; user = first_half.1 }

    module _ (a : ℕ) (behind : r.address + half < a) (below : a < word) (p : 0 < r.address) where
      -- At a further region the half is shown first.
      leave_on : first_half.0 ≡ true → leave_region walk_fn buf_size a b ≡ (true, shown_window)
      unfolding leave_region from_another_region show
      leave_on e = ground (arith, o.begins, o.half_full, o.front)

      leave_off :
          first_half.0 ≡ false
          → leave_region walk_fn buf_size a b ≡ (false, record b { user = first_half.1 })
      unfolding leave_region from_another_region show
      leave_off e = ground (arith, o.begins, o.half_full, o.front)

      pub step_on :
          (current : Bytes) → first_half.0 ≡ true → step a current b ≡ step a current shown_window
      unfolding slide_step
      step_on current e = ground (
        arith,
        leave_on e,
        o.begins,
        leave_clean a shown_window (omega (arith, o.begins)) (omega (arith, o.begins)) below
            (inl refl),
      )

      pub step_off :
          (current : Bytes)
          → first_half.0 ≡ false
          → step a current b ≡ (false, record b { user = first_half.1 })
      unfolding slide_step
      step_off current e = ground (arith, leave_off e)

    pub finish_owed : (finish walk_fn buf_size b).user ≡ first_half.1
    unfolding finish show
    finish_owed = ground (arith, o.begins, o.half_full, o.front)

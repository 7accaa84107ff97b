-- ===== src/Memaccess/Sliding/Stable.antt =====
-- What `SlidingWalkMemory` comes to for a process whose memory does not change.
use masche.Prelude.{
  ℕ, ◌+◌, ◌/◌, ◌%◌, ◌<◌, ◌≡◌, List, length, All, arith, inl, inr, List-cases, ◌∙◌, ap,
}
use masche.Go.{done}
use masche.Memaccess.Region.{MemoryRegion}
use masche.Memaccess.Platform.{Platform}
use masche.Memaccess.Image.{IsStable, after, runs}
use masche.Memaccess.Walk.{WalkFunc}
use masche.Memaccess.Walk.Visits.{visits, readable_from, feed}
use masche.Memaccess.Walk.Stable.{reply, walk_error, walk_memory_lem}
use masche.Memaccess.Sliding.{slide_step, finish, fresh, sliding_walk_memory}
use masche.Memaccess.Image.Layout.{after-IsLayout}
use masche.Memaccess.Image.Gaps.{Gaps, runs-Gaps}
use masche.Memaccess.Next.Stable.{run_past}
use masche.Memaccess.Walk.Visits.{cut_first, cut_lem}
use masche.Memaccess.Sliding.Short.{Settles}
use masche.Memaccess.Sliding.Views.{show_all, views}
use masche.Memaccess.Sliding.Shown.{walk_end-views}

-- The readable memory of a layout from an address on is in runs with gaps in between.
pub readable_from-Gaps :
    {P : Platform} {regions : List MemoryRegion} {memory : ℕ → ℕ} (st : IsStable P regions memory)
    (start : ℕ)
    → Gaps 0 (readable_from start regions)
unfolding readable_from cut_first
readable_from-Gaps {regions = regions} st start = elim (List-cases (runs (after start regions))) [
  | inl e ↦ rw e tt
  | inr (r, rest, e) ↦
      let g =
        rw e at
          (runs-Gaps (after start regions) 0 (after-IsLayout regions start 1 st.lists.layout)) in
      let c = cut_lem start r g.1 (run_past st.lists start r rest e) in
      rw e (omega (arith, g.0, c.inside), c.has_bytes, rw c.same_end g.2, rw c.same_end g.3)
]

module _ {P : Platform} {regions : List MemoryRegion} {memory : ℕ → ℕ}
    (st : IsStable P regions memory) {S : Type 0} (walk_fn : WalkFunc S) (fuel buf_size : ℕ)
    (even : buf_size % 2 ≡ 0) (pos : 0 < buf_size) (enough : length regions + 1 < fuel) (start : ℕ)
    (fits : All (λ (r : MemoryRegion). r.size < fuel) (runs (after start regions))) where
  -- The pieces that the walk reads.
  abbrev pub read_pieces : List (ℕ × ℕ)
  read_pieces = visits (buf_size / 2) (readable_from start regions)

  -- What the user's callback keeps in the end.
  unfoldable pub left_over : S → S
  left_over s =
      (finish walk_fn buf_size
        (feed memory (slide_step walk_fn buf_size) read_pieces (fresh walk_fn buf_size s)).1).user

  pub sliding_walk_memory_lem :
      (w : P.World) (s : S)
      → sliding_walk_memory walk_fn buf_size P fuel start w s
        ≡ done (reply (walk_error start (readable_from start regions)), w, left_over s)
  unfolding sliding_walk_memory left_over
  sliding_walk_memory_lem w s = ground (
    arith,
    walk_memory_lem st (slide_step walk_fn buf_size) fuel (buf_size / 2) (omega arith) enough start
        w (fresh walk_fn buf_size s) fits,
  )

  -- Over memory that does not change, with a buffer of an even size above 0 and fuel that passes
  -- the number of regions by two and is above the size of each run: if a callback that has returned
  -- false keeps what it has when it is shown the front of the same buffer again,
  -- `SlidingWalkMemory` ends with what the callback has after it has been shown, run by run and up
  -- to the first refusal, the first two pieces of half a buffer together, and behind them the first
  -- piece with each next one. A run of one piece is shown alone. The hard error is the one for a
  -- start above 0 where nothing is readable, and there is no other error.
  pub sliding_walk_memory_shows :
      Settles walk_fn
      → (w : P.World) (s : S)
      → sliding_walk_memory walk_fn buf_size P fuel start w s
        ≡ done (
          reply (walk_error start (readable_from start regions)),
          w,
          (show_all walk_fn (views memory (buf_size / 2) (readable_from start regions)) s).1,
        )
  unfolding left_over
  sliding_walk_memory_shows settles w s =
      sliding_walk_memory_lem w s
      ∙ ap (λ t. done (reply (walk_error start (readable_from start regions)), w, t))
          (walk_end-views walk_fn memory buf_size even pos settles (readable_from start regions) s
            (readable_from-Gaps st start))

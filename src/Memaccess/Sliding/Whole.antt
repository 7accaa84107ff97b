-- ===== src/Memaccess/Sliding/Whole.antt =====
-- Over runs that fit in the buffer, each run is one view.
use masche.Prelude.{ℕ, ◌+◌, ◌/◌, ◌%◌, ◌≤◌, ◌<◌, ◌≡◌, refl, List, [], ◌∷◌, All, arith}
use masche.Memaccess.Region.{MemoryRegion}
use masche.Memaccess.Image.{read}
use masche.Memaccess.Image.Gaps.{Gaps}
use masche.Memaccess.Walk.{WalkFunc}
use masche.Memaccess.Sliding.Short.{feed_runs}
use masche.Memaccess.Sliding.Views.{show_all, views, piece_views-whole}

module _ {S : Type 0} (walk_fn : WalkFunc S) (memory : ℕ → ℕ) (buf_size : ℕ)
    (even : buf_size % 2 ≡ 0) (pos : 0 < buf_size) where
  pub views-feed_runs :
      (rs : List MemoryRegion) (low : ℕ) (s : S)
      → Gaps low rs
      → All (λ (r : MemoryRegion). r.size ≤ buf_size) rs
      → show_all walk_fn (views memory (buf_size / 2) rs) s ≡ feed_runs memory walk_fn rs s
  unfolding views feed_runs show_all
  views-feed_runs [] low s g h = refl
  views-feed_runs (r ∷ rs) low s g (h, hs) =
      let one =
        piece_views-whole memory (buf_size / 2) r.size r.address g.1 (omega arith)
          (omega (arith, even, h)) in
      rw one (
        ground (
          arith,
          views-feed_runs rs (r.address + r.size)
              (walk_fn r.address (read memory r.address r.size) s).1 g.3 hs,
        ))

-- ===== src/Memaccess/Sliding/Owed.antt =====
-- A half-full window is shown before the next region, or behind the last one.
use masche.Prelude.{
  ℕ, ◌+◌, ◌/◌, ◌%◌, ◌≤◌, ◌<◌, ◌≡◌, ◌≢◌, refl, ◌⊎◌, inl, inr, true, false, List, [], ◌∷◌, ◌++◌,
  append-nil, Bytes, length, arith, Bool-cases, ap, ◌∙◌, sym,
}
use masche.Go.{word}
use masche.Memaccess.Region.{MemoryRegion}
use masche.Memaccess.Image.{read}
use masche.Memaccess.Image.Gaps.{Gaps}
use masche.Memaccess.Walk.{WalkFunc}
use masche.Memaccess.Walk.Visits.{visits, feed, feed_on, feed_off}
use masche.Memaccess.Sliding.{Window, slide_step, finish, leave_region}
use masche.Memaccess.Sliding.Feeding.{pieces-some, feed-same}
use masche.Memaccess.Sliding.Short.{
  Settles, Clean, leave_clean, Owes, step_on, step_off, shown_window, finish_owed,
}
use masche.Memaccess.Sliding.Views.{
  Views, show_all, show_all_on, show_all_off, show_all_last, views,
}

module _ {S : Type 0} (walk_fn : WalkFunc S) (memory : ℕ → ℕ) (buf_size : ℕ)
    (even : buf_size % 2 ≡ 0) (pos : 0 < buf_size) (settles : Settles walk_fn) where
  abbrev pub half : ℕ
  half = buf_size / 2

  abbrev pub step : WalkFunc (Window S)
  step = slide_step walk_fn buf_size

  abbrev pub Ready : Window S → List MemoryRegion → Type 0
  Ready b [] = b.buffered ≢ half
  Ready b (r ∷ rs) = Clean walk_fn memory buf_size even pos r.address b

  abbrev pub walk_end : List (ℕ × ℕ) → Window S → S
  walk_end vs b = (finish walk_fn buf_size (feed memory step vs b).1).user

  -- What the callback keeps behind these views.
  abbrev pub shown : Views → S → S
  shown vs s = (show_all walk_fn vs s).1

  abbrev pub all_views : List MemoryRegion → Views
  all_views = views memory half

  abbrev pub SimAt : List MemoryRegion → Type 0
  SimAt rs =
      (a : ℕ) (b : Window S)
      → Gaps a rs
      → Ready b rs
      → walk_end (visits half rs) b ≡ shown (all_views rs) b.user

  abbrev pub OwedAt : List MemoryRegion → Type 0
  OwedAt rs =
      (q : MemoryRegion) (b : Window S)
      → Owes walk_fn memory buf_size even pos q b
      → 0 < q.address
      → Gaps (q.address + half) rs
      → walk_end (visits half rs) b
        ≡ shown ((q.address, read memory q.address half) ∷ all_views rs) b.user

  pub finish_empty : (b : Window S) → b.buffered ≢ half → (finish walk_fn buf_size b).user ≡ b.user
  unfolding finish
  finish_empty b h = ground arith

  pub ready :
      (a : ℕ) (b : Window S) (rs : List MemoryRegion)
      → length b.buffer ≡ half + half
      → (b.buffered ≡ 0) ⊎ (b.buffered ≡ buf_size)
      → 0 < b.starts_at
      → b.starts_at + b.buffered ≤ a
      → Gaps a rs
      → Ready b rs
  ready a b [] l f p h g = omega (arith, f)
  ready a b (r ∷ rs) l f p h g = (
    l,
    leave_clean walk_fn memory buf_size even pos r.address b p (omega (arith, g.0))
        (omega (arith, g.2)) f,
  )

  pub sim_nil : SimAt []
  unfolding visits feed views show_all
  sim_nil a b g r = finish_empty b r

  pub owed_nil : OwedAt []
  unfolding visits feed views
  owed_nil q b o p g =
      finish_owed walk_fn memory buf_size even pos q b o
      ∙ sym (show_all_last walk_fn q.address (read memory q.address half) b.user)

  pub walk_end-on :
      (a m : ℕ) (vs : List (ℕ × ℕ)) (b b' : Window S)
      → step a (read memory a m) b ≡ (true, b')
      → walk_end ((a, m) ∷ vs) b ≡ walk_end vs b'
  walk_end-on a m vs b b' h =
      ap (λ t. (finish walk_fn buf_size t.1).user)
        (feed_on memory step a m vs b (ap (λ t. t.0) h) ∙ ap (λ t. feed memory step vs t.1) h)

  pub walk_end-off :
      (a m : ℕ) (vs : List (ℕ × ℕ)) (b b' : Window S)
      → step a (read memory a m) b ≡ (false, b')
      → walk_end ((a, m) ∷ vs) b ≡ (finish walk_fn buf_size b').user
  walk_end-off a m vs b b' h =
      ap (λ t. (finish walk_fn buf_size t.1).user) (feed_off memory step a m vs b (ap (λ t. t.0) h))
      ∙ ap (λ t. (finish walk_fn buf_size t.1).user) h

  -- A half that was shown is shown once more behind the walk, to no effect.
  pub finish_stopped :
      (q : MemoryRegion) (b : Window S) (s : S) (y : Bytes)
      → Owes walk_fn memory buf_size even pos q b
      → (walk_fn q.address (read memory q.address half ++ y) s).0 ≡ false
      → b.user ≡ (walk_fn q.address (read memory q.address half ++ y) s).1
      → (finish walk_fn buf_size b).user ≡ b.user
  finish_stopped q b s y o off u =
      finish_owed walk_fn memory buf_size even pos q b o
      ∙ rw u (settles q.address (read memory q.address half) y s off)

  module _ (r : MemoryRegion) (rs : List MemoryRegion) where
    visits_first :
        0 < r.size → (m : ℕ) × (vs : List (ℕ × ℕ)) × (visits half (r ∷ rs) ≡ (r.address, m) ∷ vs)
    unfolding visits
    visits_first p =
        let (m, vs, e) = pieces-some r.size half r.address p in (m, vs ++ visits half rs, rw e refl)

    -- What is owed is shown before the next region.
    pub owed_cons : SimAt (r ∷ rs) → OwedAt (r ∷ rs)
    owed_cons sim q b o p g =
        let (m, vs, v) = visits_first g.1 in
        let c = read memory q.address half in
        let whole = walk_fn q.address c b.user in
        let below : r.address < word = omega (arith, g.2) in
        elim (Bool-cases whole.0) [
          | inl on ↦
              let b' = shown_window walk_fn memory buf_size even pos q b o in
              let same =
                step_on walk_fn memory buf_size even pos q b o r.address g.0 below p
                  (read memory r.address m) on in
              let again : leave_region walk_fn buf_size r.address b' ≡ (true, b') =
                leave_clean walk_fn memory buf_size even pos r.address b'
                  (omega (arith, o.begins, p)) (omega (arith, o.begins, g.0)) below (inl refl) in
              let end = sim (q.address + half) b' g (o.long, again) in
              rw v (
                ap (λ t. (finish walk_fn buf_size t.1).user)
                  (feed-same step memory r.address m vs b b' same)
                ∙ (rw v at end)
                ∙ ap (λ t. t.1)
                    (sym (show_all_on walk_fn q.address c (all_views (r ∷ rs)) b.user on)))
          | inr off ↦
              let b' : Window S = record b { user = whole.1 } in
              let o' : Owes walk_fn memory buf_size even pos q b' = record {
                long = o.long;
                begins = o.begins;
                half_full = o.half_full;
                front = o.front;
              } in
              let nothing = append-nil c in
              rw v (
                walk_end-off r.address m vs b b' (
                  step_off walk_fn memory buf_size even pos q b o r.address g.0 below p
                    (read memory r.address m) off)
                ∙ finish_stopped q b' b.user [] o' (rw nothing off) (rw nothing refl)
                ∙ ap (λ t. t.1)
                    (sym (show_all_off walk_fn q.address c (all_views (r ∷ rs)) b.user off)))
        ]

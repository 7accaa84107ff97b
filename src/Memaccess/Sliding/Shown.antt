-- ===== src/Memaccess/Sliding/Shown.antt =====
-- `SlidingWalkMemory` over readable runs comes to its views, one call for each.
use masche.Prelude.{
  ℕ, ◌+◌, ◌-◌, ◌/◌, ◌%◌, ◌≤◌, ◌<◌, ◌≡◌, refl, inl, inr, Bool, true, false, List, [], ◌∷◌, ◌++◌,
  ◌==◌, ltb, if◌then◌else◌, length, take, drop, length-replicate, arith, Bool-cases, ap, ◌∙◌, sym,
}
use masche.Memaccess.Region.{MemoryRegion}
use masche.Memaccess.Image.{end_of, read, length-read}
use masche.Memaccess.Image.Gaps.{Gaps}
use masche.Memaccess.Walk.{WalkFunc}
use masche.Memaccess.Walk.Visits.{pieces, pieces-none, visits, feed, read-append}
use masche.Memaccess.Sliding.{copy, Window, slide_step, finish, fresh}
use masche.Memaccess.Sliding.Buffer.{length-copy, take-copy, front-fill, length-fill}
use masche.Memaccess.Sliding.Feeding.{pieces-one, pieces-more, second_piece}
use masche.Memaccess.Sliding.Short.{
  leave_empty, Settles, Clean, step_short, step-half, Owes, step_second,
}
use masche.Memaccess.Sliding.Full.{IsFull}
use masche.Memaccess.Sliding.Views.{
  Views, show_all, show_all_on, show_all_off, later, piece_views, views,
}
use masche.Memaccess.Sliding.Owed
use masche.Memaccess.Sliding.Owed.{
  finish_empty, ready, sim_nil, owed_nil, walk_end-on, walk_end-off, finish_stopped, owed_cons,
}
use masche.Memaccess.Sliding.Behind.{full_pieces}

module _ {S : Type 0} (walk_fn : WalkFunc S) (memory : ℕ → ℕ) (buf_size : ℕ)
    (even : buf_size % 2 ≡ 0) (pos : 0 < buf_size) (settles : Settles walk_fn) where
  abbrev half : ℕ
  half = Owed.half walk_fn memory buf_size even pos settles

  abbrev step : WalkFunc (Window S)
  step = Owed.step walk_fn memory buf_size even pos settles

  abbrev Ready : Window S → List MemoryRegion → Type 0
  Ready = Owed.Ready walk_fn memory buf_size even pos settles

  abbrev walk_end : List (ℕ × ℕ) → Window S → S
  walk_end = Owed.walk_end walk_fn memory buf_size even pos settles

  abbrev shown : Views → S → S
  shown = Owed.shown walk_fn memory buf_size even pos settles

  abbrev all_views : List MemoryRegion → Views
  all_views = Owed.all_views walk_fn memory buf_size even pos settles

  abbrev SimAt : List MemoryRegion → Type 0
  SimAt = Owed.SimAt walk_fn memory buf_size even pos settles

  abbrev OwedAt : List MemoryRegion → Type 0
  OwedAt = Owed.OwedAt walk_fn memory buf_size even pos settles

  module _ (r : MemoryRegion) (rs : List MemoryRegion) (a : ℕ) (b : Window S) (g : Gaps a (r ∷ rs))
      (clean : Clean walk_fn memory buf_size even pos r.address b) where
    -- The window behind a first half.
    abbrev opened : Window S
    opened = record {
      buffer = copy b.buffer (read memory r.address half);
      starts_at = r.address;
      buffered = half;
      user = b.user;
    }

    opened-Owes : Owes walk_fn memory buf_size even pos r opened
    opened-Owes =
        let n : length (read memory r.address half) ≡ half = length-read memory half r.address in
        record {
          long = length-copy b.buffer (read memory r.address half) ∙ clean.0;
          begins = refl;
          half_full = refl;
          front =
              rw n at (take-copy b.buffer (read memory r.address half) (omega (arith, n, clean.0)));
        }

    sim_short :
        SimAt rs
        → r.size < half
        → walk_end (visits half (r ∷ rs)) b ≡ shown (all_views (r ∷ rs)) b.user
    unfolding visits views piece_views
    sim_short sim h =
        let c = read memory r.address r.size in
        let whole = walk_fn r.address c b.user in
        let stepped = step_short walk_fn memory buf_size even pos r.address b clean r.size h in
        let b' : Window S = record {
          buffer = copy b.buffer c;
          starts_at = r.address;
          buffered = 0;
          user = whole.1;
        } in
        rw (pieces-one r.size half r.address g.1 (omega arith)) (elim (Bool-cases whole.0) [
          | inl on ↦
              let next : Ready b' rs =
                ready walk_fn memory buf_size even pos settles (end_of r) b' rs
                  (length-copy b.buffer c ∙ clean.0) (inl refl) (omega (arith, g.0)) (omega arith)
                  g.3 in
              walk_end-on walk_fn memory buf_size even pos settles r.address r.size (visits half rs)
                b b' (stepped ∙ ap (λ t. (t, b')) on)
              ∙ sim (end_of r) b' g.3 next
              ∙ ap (λ t. t.1) (sym (show_all_on walk_fn r.address c (all_views rs) b.user on))
          | inr off ↦
              walk_end-off walk_fn memory buf_size even pos settles r.address r.size
                (visits half rs) b b' (stepped ∙ ap (λ t. (t, b')) off)
              ∙ finish_empty walk_fn memory buf_size even pos settles b' (omega arith)
              ∙ ap (λ t. t.1) (sym (show_all_off walk_fn r.address c (all_views rs) b.user off))
        ])

    sim_half :
        OwedAt rs
        → r.size ≡ half
        → walk_end (visits half (r ∷ rs)) b ≡ shown (all_views (r ∷ rs)) b.user
    unfolding visits views piece_views
    sim_half owed h =
        let behind_half : Gaps (r.address + half) rs = rw (← h) g.3 in
        rw (pieces-one r.size half r.address g.1 (omega (arith, h)), h)
          (walk_end-on walk_fn memory buf_size even pos settles r.address half (visits half rs) b
              opened (step-half walk_fn memory buf_size even pos r.address b clean)
            ∙ owed r opened opened-Owes (omega (arith, g.0)) behind_half)

    -- A second piece of `k` bytes, and the window behind it.
    module _ (k : ℕ) (p : 0 < k) (h : k ≤ half) (fits : half + k ≤ r.size) where
      abbrev both : Bool × S
      both = walk_fn r.address (read memory r.address (half + k)) b.user

      abbrev second : Bool → Window S
      second more = record {
        buffer =
            take half opened.buffer
            ++ copy (drop half opened.buffer) (read memory (r.address + half) k);
        starts_at = r.address;
        buffered = if more then (if k == half then buf_size else 0) else half;
        user = both.1;
      }

      stepped :
          step (r.address + half) (read memory (r.address + half) k) opened
          ≡ (both.0, second both.0)
      stepped =
          step_second walk_fn memory buf_size even pos r opened opened-Owes k p h
            (omega (arith, g.2, fits))

      long_after : (m : Bool) → length (second m).buffer ≡ half + half
      long_after m =
          length-fill opened.buffer (read memory (r.address + half) k) half opened-Owes.long

      front_after : (m : Bool) → take half (second m).buffer ≡ read memory r.address half
      front_after m =
          front-fill opened.buffer (read memory (r.address + half) k) half opened-Owes.long
          ∙ opened-Owes.front

      stopped : Owes walk_fn memory buf_size even pos r (second false)
      stopped = record {
        long = long_after false;
        begins = refl;
        half_full = refl;
        front = front_after false;
      }

      second-IsFull :
          k ≡ half
          → IsFull walk_fn memory buf_size even pos
              (read memory r.address half)
              (r.address + half + k)
              (second true)
      second-IsFull e = record {
        long = long_after true;
        both = ground arith;
        ends = omega (arith, e, even);
        front_there = front_after true;
      }

    sim_long :
        SimAt rs
        → half < r.size
        → walk_end (visits half (r ∷ rs)) b ≡ shown (all_views (r ∷ rs)) b.user
    unfolding visits views piece_views
    sim_long sim h =
        let k = second_piece r.size half in
        let (rounds, cut_up) = pieces-more r.size half r.address h (omega (arith, even, pos)) in
        let p : 0 < k = ground arith in
        let no_more : k ≤ half = ground arith in
        let fits : half + k ≤ r.size = ground arith in
        let front = read memory r.address half in
        let c = front ++ read memory (r.address + half) k in
        let rest = pieces rounds half (r.address + half + k) (r.size - half - k) in
        let vs = later memory half front rest ++ all_views rs in
        let at_once = read-append memory half k r.address in
        let now = both k p no_more fits in
        let out = second k p no_more fits in
        let steps = stepped k p no_more fits in
        let seen = ap (λ t. walk_fn r.address t b.user) at_once in
        rw cut_up (
          walk_end-on walk_fn memory buf_size even pos settles r.address half
            (((r.address + half, k) ∷ rest) ++ visits half rs) b opened
            (step-half walk_fn memory buf_size even pos r.address b clean)
          ∙ elim (Bool-cases now.0) [
            | inl on ↦
                walk_end-on walk_fn memory buf_size even pos settles (r.address + half) k
                  (rest ++ visits half rs) opened (out true) (steps ∙ ap (λ t. (t, out t)) on)
                ∙ elim (Bool-cases (ltb (r.size - half) half)) [
                  | inl last ↦
                      let nothing : r.size - half - k ≡ 0 = ground arith in
                      let none_left : rest ≡ [] =
                        rw nothing (pieces-none rounds half (r.address + half + k)) in
                      rw none_left (
                        sim (end_of r) (out true) g.3 (
                          ready walk_fn memory buf_size even pos settles (end_of r) (out true) rs
                            (long_after k p no_more fits true) (inl (ground arith))
                            (omega (arith, g.0)) (ground (arith)) g.3))
                  | inr not_last ↦
                      full_pieces walk_fn memory buf_size even pos settles rs sim (end_of r) g.3 g.2
                        front rounds (r.address + half + k) (r.size - half - k) (out true)
                        (second-IsFull k p no_more fits (ground arith)) (omega (arith, g.0))
                        (omega (arith, fits))
                ]
                ∙ ap (shown vs) (ap (λ t. t.1) seen)
                ∙ ap (λ t. t.1)
                    (sym
                      (show_all_on walk_fn r.address c vs b.user (ap (λ t. t.0) (sym seen) ∙ on)))
            | inr off ↦
                walk_end-off walk_fn memory buf_size even pos settles (r.address + half) k
                  (rest ++ visits half rs) opened (out false) (steps ∙ ap (λ t. (t, out t)) off)
                ∙ finish_stopped walk_fn memory buf_size even pos settles r (out false) b.user
                    (read memory (r.address + half) k) (stopped k p no_more fits)
                    (ap (λ t. t.0) (sym seen) ∙ off) (ap (λ t. t.1) seen)
                ∙ ap (λ t. t.1) seen
                ∙ ap (λ t. t.1)
                    (sym
                      (show_all_off walk_fn r.address c vs b.user (ap (λ t. t.0) (sym seen) ∙ off)))
          ])

  -- Both halves of the induction.
  sim_and_owed : (rs : List MemoryRegion) → SimAt rs × OwedAt rs
  sim_and_owed [] = (
    sim_nil walk_fn memory buf_size even pos settles,
    owed_nil walk_fn memory buf_size even pos settles,
  )
  sim_and_owed (r ∷ rs) =
      let (sim, owed) = sim_and_owed rs in
      let sim' : SimAt (r ∷ rs) = λ a b g c. elim (Bool-cases (ltb r.size half)) [
        | inl short ↦ sim_short r rs a b g c sim (ground arith)
        | inr not_short ↦ elim (Bool-cases (r.size == half)) [
          | inl same ↦ sim_half r rs a b g c owed (ground arith)
          | inr long ↦ sim_long r rs a b g c sim (ground arith)
        ]
      ] in
      (sim', owed_cons walk_fn memory buf_size even pos settles r rs sim')

  fresh-Ready : (rs : List MemoryRegion) (s : S) → Ready (fresh walk_fn buf_size s) rs
  fresh-Ready [] s = omega arith
  fresh-Ready (r ∷ rs) s = (
    length-replicate {A = ℕ} buf_size 0 ∙ omega arith,
    leave_empty walk_fn memory buf_size even pos r.address (fresh walk_fn buf_size s) refl refl,
  )

  pub walk_end-views :
      (rs : List MemoryRegion) (s : S)
      → Gaps 0 rs
      → (finish walk_fn buf_size
          (feed memory
            (slide_step walk_fn buf_size)
            (visits (buf_size / 2) rs)
            (fresh walk_fn buf_size s)).1).user
        ≡ (show_all walk_fn (views memory (buf_size / 2) rs) s).1
  walk_end-views rs s g = (sim_and_owed rs).0 0 (fresh walk_fn buf_size s) g (fresh-Ready rs s)

-- ===== src/Memaccess/Sliding/Behind.antt =====
-- The pieces of a run behind its second one, to a full window.
use masche.Prelude.{
  ℕ, zero, suc, ◌+◌, ◌-◌, ◌%◌, ◌≤◌, ◌<◌, ◌≡◌, inl, inr, List, [], ◌++◌, Bytes, ltb, if◌then◌else◌,
  arith, Bool-cases, ap, ◌∙◌, sym,
}
use masche.Go.{word}
use masche.Memaccess.Region.{MemoryRegion}
use masche.Memaccess.Image.{read}
use masche.Memaccess.Image.Gaps.{Gaps}
use masche.Memaccess.Walk.{WalkFunc}
use masche.Memaccess.Walk.Visits.{pieces, pieces-none, visits}
use masche.Memaccess.Sliding.{Window}
use masche.Memaccess.Sliding.Short.{Settles}
use masche.Memaccess.Sliding.Full.{IsFull, joined, behind, step_full, length-behind, behind-IsFull}
use masche.Memaccess.Sliding.Views.{Views, show_all_on, show_all_off, later}
use masche.Memaccess.Sliding.Owed
use masche.Memaccess.Sliding.Owed.{finish_empty, ready, walk_end-on, walk_end-off}

module _ {S : Type 0} (walk_fn : WalkFunc S) (memory : ℕ → ℕ) (buf_size : ℕ)
    (even : buf_size % 2 ≡ 0) (pos : 0 < buf_size) (settles : Settles walk_fn) where
  abbrev half : ℕ
  half = Owed.half walk_fn memory buf_size even pos settles

  abbrev walk_end : List (ℕ × ℕ) → Window S → S
  walk_end = Owed.walk_end walk_fn memory buf_size even pos settles

  abbrev shown : Views → S → S
  shown = Owed.shown walk_fn memory buf_size even pos settles

  abbrev all_views : List MemoryRegion → Views
  all_views = Owed.all_views walk_fn memory buf_size even pos settles

  abbrev SimAt : List MemoryRegion → Type 0
  SimAt = Owed.SimAt walk_fn memory buf_size even pos settles

  -- Behind the second piece of a run that ends at `e`.
  module _ (rs : List MemoryRegion) (sim : SimAt rs) (e : ℕ) (g : Gaps e rs) (below : e < word)
      (front : Bytes) where
    pub full_pieces :
        (rounds x left : ℕ) (b : Window S)
        → IsFull walk_fn memory buf_size even pos front x b
        → 0 < b.starts_at
        → x + left ≤ e
        → walk_end (pieces rounds half x left ++ visits half rs) b
          ≡ shown (later memory half front (pieces rounds half x left) ++ all_views rs) b.user
    unfolding pieces later
    full_pieces zero x left b full p h = sim e b g (
        ready walk_fn memory buf_size even pos settles e b rs full.long (inr full.both) p
          (omega (arith, full.ends, full.both)) g)
    full_pieces (suc rounds) x left b full p h = elim (Bool-cases (ltb 0 left)) [
      | inr none_left ↦ rw none_left (
          sim e b g (
            ready walk_fn memory buf_size even pos settles e b rs full.long (inr full.both) p
              (omega (arith, full.ends, full.both, h)) g))
      | inl some_left ↦
          let m = if ltb left half then left else half in
          let positive : 0 < m = ground arith in
          let no_more : m ≤ half = ground arith in
          let w : x < word = ground arith in
          let c = front ++ read memory x m in
          let out = behind walk_fn memory buf_size even pos front x b full m positive no_more w in
          let stepped =
            step_full walk_fn memory buf_size even pos front x b full m positive no_more w in
          let now = joined walk_fn memory buf_size even pos front x b full m positive no_more w in
          let rest = pieces rounds half (x + m) (left - m) in
          let vs = later memory half front rest ++ all_views rs in
          rw some_left (elim (Bool-cases now.0) [
            | inr off ↦
                walk_end-off walk_fn memory buf_size even pos settles x m (rest ++ visits half rs) b
                  out (stepped ∙ ap (λ t. (t, out)) off)
                ∙ finish_empty walk_fn memory buf_size even pos settles out (ground arith)
                ∙ ap (λ t. t.1) (sym (show_all_off walk_fn (x - half) c vs b.user off))
            | inl on ↦
                walk_end-on walk_fn memory buf_size even pos settles x m (rest ++ visits half rs) b
                  out (stepped ∙ ap (λ t. (t, out)) on)
                ∙ elim (Bool-cases (ltb left half)) [
                  | inl last ↦
                      let nothing : left - m ≡ 0 = ground arith in
                      let done : rest ≡ [] = rw nothing (pieces-none rounds half (x + m)) in
                      rw done (
                        sim e out g (
                          ready walk_fn memory buf_size even pos settles e out rs
                            (length-behind walk_fn memory buf_size even pos front x b full m
                              positive no_more w)
                            (inl (ground arith)) (omega (arith, full.ends, p))
                            (ground (arith, full.ends, h)) g))
                  | inr not_last ↦
                      let whole : m ≡ half = ground arith in
                      full_pieces rounds (x + m) (left - m) out
                        (behind-IsFull walk_fn memory buf_size even pos front x b full m positive
                          no_more w whole on)
                        (omega (arith, full.ends, p)) (ground (arith, h))
                ]
                ∙ ap (λ t. t.1) (sym (show_all_on walk_fn (x - half) c vs b.user on))
          ])
    ]

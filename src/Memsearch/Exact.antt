-- ===== src/Memsearch/Exact.antt =====
-- `FindBytesSequence` over runs that fit in its buffer, against a search through the runs.
use masche.Prelude.{
  ℕ, ap, sym, ◌/◌, ◌+◌, ◌%◌, ◌≤◌, ◌<◌, ◌≡◌, refl, true, List, [], ◌∷◌, Option, none, some, Bytes,
  length, All, arith, Option-cases, inl, inr, ◌∙◌,
}
use masche.Go.{done}
use masche.Memaccess.Region.{MemoryRegion}
use masche.Memaccess.Platform.{Platform}
use masche.Memaccess.Image.{end_of, IsStable, after, runs, read, length-read}
use masche.Memaccess.Image.Gaps.{Gaps}
use masche.Memaccess.Walk.Visits.{readable_from}
use masche.Memaccess.Walk.Stable.{walk_error}
use masche.Memaccess.Sliding.Short.{feed_runs}
use masche.Memaccess.Sliding.Views.{views}
use masche.Memaccess.Sliding.Whole.{views-feed_runs}
use masche.Memaccess.Sliding.Stable.{readable_from-Gaps}
use masche.Memsearch.Views.{first_match, show_all-first_match, find_bytes_sequence-views}
use masche.Memsearch.{index, Hit, no_hit, look, buffer_size_for, find_bytes_sequence}
use masche.Memsearch.Prefix.{length-index}

-- The first run that the needle stands in, and its first place there.
unfoldable pub first_hit : (ℕ → ℕ) → Bytes → List MemoryRegion → Hit
first_hit memory needle [] = no_hit
first_hit memory needle (r ∷ rs) = elim (index (read memory r.address r.size) needle) [
  | none ↦ first_hit memory needle rs
  | some i ↦ record { found = true; found_address = r.address + i }
]

module _ (needle : Bytes) where
  abbrev matcher : Bytes → Option ℕ
  matcher buffer = index buffer needle

  feed_runs-first_hit :
      (memory : ℕ → ℕ) (rs : List MemoryRegion) (low : ℕ)
      → Gaps low rs
      → (feed_runs memory (look matcher) rs no_hit).1 ≡ first_hit memory needle rs
  unfolding feed_runs look first_hit
  feed_runs-first_hit memory [] low g = refl
  feed_runs-first_hit memory (r ∷ rs) low g =
      elim (Option-cases (index (read memory r.address r.size) needle)) [
        | inl e ↦ ground (arith, feed_runs-first_hit memory rs (end_of r) g.3)
        | inr (i, e) ↦ ground (
          arith,
          g.2,
          length-index (read memory r.address r.size) needle i e,
          length-read memory r.size r.address,
        )
      ]

  module _ {P : Platform} {regions : List MemoryRegion} {memory : ℕ → ℕ}
      (st : IsStable P regions memory) (fuel : ℕ) (enough : length regions + 1 < fuel) (address : ℕ)
      (fits : All (λ (r : MemoryRegion). r.size < fuel) (runs (after address regions)))
      (even : buffer_size_for needle % 2 ≡ 0)
      (short : All
        (λ (r : MemoryRegion). r.size ≤ buffer_size_for needle)
        (readable_from address regions)) where
    buffer_pos : 0 < buffer_size_for needle
    unfolding buffer_size_for
    buffer_pos = ground arith

    views-first_hit :
        first_match matcher
          (views memory (buffer_size_for needle / 2) (readable_from address regions))
        ≡ first_hit memory needle (readable_from address regions)
    views-first_hit =
        sym (
          show_all-first_match matcher
            (views memory (buffer_size_for needle / 2) (readable_from address regions)))
        ∙ ap (λ t. t.1)
            (views-feed_runs (look matcher) memory (buffer_size_for needle) even buffer_pos
              (readable_from address regions) 0 no_hit (readable_from-Gaps st address) short)
        ∙ feed_runs-first_hit memory (readable_from address regions) 0
            (readable_from-Gaps st address)

    -- Over memory that does not change, with a buffer of even size in which each readable run from
    -- the address on fits, and fuel that passes the number of regions by two and is above the size
    -- of each run, `FindBytesSequence` reports the first place of the needle in the first run that
    -- holds it, and else nothing found. It has no soft errors, and the hard error that the walk has
    -- if nothing is readable.
    pub find_bytes_sequence_exact :
        (w : P.World)
        → find_bytes_sequence P fuel address needle w
          ≡ done (
            record {
              hit = first_hit memory needle (readable_from address regions);
              harderror = walk_error address (readable_from address regions);
              softerrors = [];
            },
            w,
          )
    find_bytes_sequence_exact w =
        rw views-first_hit at (find_bytes_sequence-views st fuel enough address fits needle even w)

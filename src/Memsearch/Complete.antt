-- ===== src/Memsearch/Complete.antt =====
-- What a search that finds nothing tells of the memory.
use masche.Prelude.{
  ℕ, ◌+◌, ◌/◌, ◌%◌, ◌<◌, ◌≡◌, refl, true, List, [], ◌∷◌, ◌++◌, Option, none, some, Bytes, length,
  All, All-append, All-split, arith, inl, inr, Bool-cases, ◌⊎◌,
}
use masche.Go.{done, odd_buffer_size}
use masche.Memaccess.Region.{MemoryRegion}
use masche.Memaccess.Platform.{Platform}
use masche.Memaccess.Image.{IsStable, after, runs, read}
use masche.Memaccess.Walk.Visits.{readable_from, pieces, visits}
use masche.Memaccess.Walk.Stable.{walk_error}
use masche.Memaccess.Sliding.{sliding_walk_memory}
use masche.Memaccess.Sliding.Views.{Views, later, piece_views, views}
use masche.Memsearch.Views.{first_match, first_match-none, find_bytes_sequence-views}
use masche.Memsearch.{
  min_buffer_size, index, no_hit, Search, buffer_size_for, search, find_bytes_sequence, has_prefix,
}
use masche.Memsearch.Index.{index-left, index-right, index_here}

-- The needle stands somewhere in a text.
abbrev pub Occurs : Bytes → Bytes → Type 0
Occurs needle s = (x : Bytes) × (y : Bytes) × (s ≡ x ++ (needle ++ y))

has_prefix_self : (needle y : Bytes) → has_prefix (needle ++ y) needle ≡ true
unfolding has_prefix
has_prefix_self [] y = refl
has_prefix_self (c ∷ needle) y = ground (arith, has_prefix_self needle y)

-- `Index` gives -1 only where the needle does not stand.
pub index-Occurs : (s needle : Bytes) → index s needle ≡ none → ¬ Occurs needle s
index-Occurs s needle h (x, y, e) =
    let there = index-right x (needle ++ y) needle (rw e at h) in
    cc (index_here (needle ++ y) needle there, has_prefix_self needle y)

module _ (needle : Bytes) where
  abbrev matcher : Bytes → Option ℕ
  matcher buffer = index buffer needle

  module _ (memory : ℕ → ℕ) (half : ℕ) where
    -- Pieces without the needle.
    abbrev Bare : List (ℕ × ℕ) → Type 0
    Bare = All (λ (v : ℕ × ℕ). ¬ Occurs needle (read memory v.0 v.1))

    -- Views that the needle is not found in.
    abbrev Missed : Views → Type 0
    Missed = All (λ (v : ℕ × Bytes). index v.1 needle ≡ none)

    later-Missed :
        (front : Bytes) (ps : List (ℕ × ℕ)) → Missed (later memory half front ps) → Bare ps
    unfolding later
    later-Missed front [] h = tt
    later-Missed front ((x, m) ∷ ps) (h, hs) = (
      index-Occurs (read memory x m) needle (index-right front (read memory x m) needle h),
      later-Missed front ps hs,
    )

    piece_views-Missed : (ps : List (ℕ × ℕ)) → Missed (piece_views memory half ps) → Bare ps
    unfolding piece_views
    piece_views-Missed [] h = tt
    piece_views-Missed ((a, m) ∷ []) (h, hs) = (index-Occurs (read memory a m) needle h, tt)
    piece_views-Missed ((a, m) ∷ (x, k) ∷ ps) (h, hs) = (
      index-Occurs (read memory a m) needle
          (index-left (read memory a m) (read memory x k) needle h),
      (
        index-Occurs (read memory x k) needle
            (index-right (read memory a m) (read memory x k) needle h),
        later-Missed (read memory a m) ps hs,
      ),
    )

    views-Missed : (rs : List MemoryRegion) → Missed (views memory half rs) → Bare (visits half rs)
    unfolding views visits
    views-Missed [] h = tt
    views-Missed (r ∷ rs) h =
        let ps = pieces r.size half r.address r.size in
        let (here, there) = All-split _ (piece_views memory half ps) (views memory half rs) h in
        All-append _ ps (visits half rs) (piece_views-Missed ps here) (views-Missed rs there)

  -- A needle of an odd length above 4096 is never looked for, whatever the platform does: the
  -- search ends at once with the error of `SlidingWalkMemory`.
  pub find_bytes_sequence_odd :
      (P : Platform) (fuel address : ℕ) (w : P.World)
      → min_buffer_size < length needle
      → length needle % 2 ≡ 1
      → find_bytes_sequence P fuel address needle w
        ≡ done (record { hit = no_hit; harderror = some odd_buffer_size; softerrors = [] }, w)
  unfolding find_bytes_sequence search sliding_walk_memory buffer_size_for
  find_bytes_sequence_odd P fuel address w long odd = ground arith

  module _ {P : Platform} {regions : List MemoryRegion} {memory : ℕ → ℕ}
      (st : IsStable P regions memory) (fuel : ℕ) (enough : length regions + 1 < fuel) (address : ℕ)
      (fits : All (λ (r : MemoryRegion). r.size < fuel) (runs (after address regions)))
      (even : buffer_size_for needle % 2 ≡ 0) where
    abbrev result : Search
    result = record {
      hit =
          first_match matcher
            (views memory (buffer_size_for needle / 2) (readable_from address regions));
      harderror = walk_error address (readable_from address regions);
      softerrors = [];
    }

    -- Over memory that does not change, with a buffer of even size and fuel that passes the number
    -- of regions by two and is above the size of each run, `FindBytesSequence` ends without a
    -- panic, and it has found something unless the needle stands in none of the pieces of half a
    -- buffer that the readable memory from the address on is read in.
    pub find_bytes_sequence_complete :
        (w : P.World)
        → (r : Search) × (find_bytes_sequence P fuel address needle w ≡ done (r, w))
          × ((r.hit.found ≡ true)
              ⊎ All
                  (λ (v : ℕ × ℕ). ¬ Occurs needle (read memory v.0 v.1))
                  (visits (buffer_size_for needle / 2) (readable_from address regions)))
    find_bytes_sequence_complete w = (
      result,
      find_bytes_sequence-views st fuel enough address fits needle even w,
      elim (Bool-cases result.hit.found) [
        | inl hit ↦ inl hit
        | inr lost ↦ inr (
            views-Missed memory (buffer_size_for needle / 2) (readable_from address regions) (
              first_match-none matcher
                (views memory (buffer_size_for needle / 2) (readable_from address regions)) lost))
      ],
    )

-- ===== src/Memsearch/Views.antt =====
-- What the searches come to: the first of the views that matches.
use masche.Prelude.{
  ℕ, ◌+◌, ◌/◌, ◌%◌, ◌<◌, ◌≡◌, refl, true, false, List, [], ◌∷◌, ◌++◌, Option, none, some, Bytes,
  length, All, arith, Option-cases, inl, inr,
}
use masche.Go.{done, add64}
use masche.Memaccess.Region.{MemoryRegion}
use masche.Memaccess.Platform.{Platform}
use masche.Memaccess.Image.{IsStable, after, runs}
use masche.Memaccess.Walk.Visits.{readable_from}
use masche.Memaccess.Walk.Stable.{walk_error}
use masche.Memaccess.Sliding.Short.{Settles}
use masche.Memaccess.Sliding.Views.{Views, show_all, views}
use masche.Memaccess.Sliding.Stable.{sliding_walk_memory_shows}
use masche.Memsearch.{
  index, Hit, no_hit, look, buffer_size_for, search, find_bytes_sequence, find_regexp_match,
}
use masche.Memsearch.Prefix.{index-front}

-- A match in the front of a text that has one is at the same place.
abbrev pub IsFrontal : (Bytes → Option ℕ) → Type 0
IsFrontal match_at =
    (x y : Bytes) (i j : ℕ) → match_at (x ++ y) ≡ some i → match_at x ≡ some j → j ≡ i

pub index-IsFrontal : (needle : Bytes) → IsFrontal (λ buffer. index buffer needle)
index-IsFrontal needle x y i j h k = ground (arith, index-front x y needle j k)

-- The first view with a match, and the place of the match in it.
unfoldable pub first_match : (Bytes → Option ℕ) → Views → Hit
first_match match_at [] = no_hit
first_match match_at ((a, b) ∷ vs) = elim (match_at b) [
  | none ↦ first_match match_at vs
  | some i ↦ record { found = true; found_address = add64 a i }
]

module _ (match_at : Bytes → Option ℕ) where
  pub show_all-first_match :
      (vs : Views) → (show_all (look match_at) vs no_hit).1 ≡ first_match match_at vs
  unfolding show_all look first_match
  show_all-first_match [] = refl
  show_all-first_match ((a, b) ∷ vs) = elim (Option-cases (match_at b)) [
    | inl e ↦ ground (arith, show_all-first_match vs)
    | inr (i, e) ↦ ground arith
  ]

  -- If nothing is found, no view matches.
  pub first_match-none :
      (vs : Views)
      → (first_match match_at vs).found ≡ false
      → All (λ (v : ℕ × Bytes). match_at v.1 ≡ none) vs
  unfolding first_match
  first_match-none [] h = tt
  first_match-none ((a, b) ∷ vs) h = elim (Option-cases (match_at b)) [
    | inl e ↦ (e, first_match-none vs (ground (arith)))
    | inr (i, e) ↦ absurd (ground arith)
  ]

  pub look-Settles : IsFrontal match_at → Settles (look match_at)
  unfolding look
  look-Settles frontal a x y h off = elim (Option-cases (match_at x)) [
    | inl e ↦ ground arith
    | inr (j, e) ↦ elim (Option-cases (match_at (x ++ y))) [
      | inl k ↦ absurd (ground arith)
      | inr (i, k) ↦ ground (arith, frontal x y i j k e)
    ]
  ]

  module _ {P : Platform} {regions : List MemoryRegion} {memory : ℕ → ℕ}
      (st : IsStable P regions memory) (fuel : ℕ) (enough : length regions + 1 < fuel) (address : ℕ)
      (fits : All (λ (r : MemoryRegion). r.size < fuel) (runs (after address regions)))
      (frontal : IsFrontal match_at) (buf_size : ℕ) (even : buf_size % 2 ≡ 0)
      (pos : 0 < buf_size) where
    pub search-views :
        (w : P.World)
        → search P fuel match_at buf_size address w
          ≡ done (
            record {
              hit =
                  first_match match_at
                    (views memory (buf_size / 2) (readable_from address regions));
              harderror = walk_error address (readable_from address regions);
              softerrors = [];
            },
            w,
          )
    unfolding search
    search-views w =
        let ends =
          sliding_walk_memory_shows st (look match_at) fuel buf_size even pos enough address fits
            (look-Settles frontal) w no_hit in
        ground (
          arith,
          ends,
          show_all-first_match (views memory (buf_size / 2) (readable_from address regions)),
        )

module _ {P : Platform} {regions : List MemoryRegion} {memory : ℕ → ℕ}
    (st : IsStable P regions memory) (fuel : ℕ) (enough : length regions + 1 < fuel) (address : ℕ)
    (fits : All (λ (r : MemoryRegion). r.size < fuel) (runs (after address regions))) where
  -- Over memory that does not change, with fuel that passes the number of regions by two and is
  -- above the size of each run, and for a regexp whose first match in a text, where it also matches
  -- a front of the text, is at the same place in that front: `FindRegexpMatch` reports the first
  -- match in the first buffer that has one, of the buffers made from the readable runs in pieces of
  -- 2048 bytes: the first two together, and behind them the first with each next one. If none
  -- matches, nothing is found. It has no soft errors, and the hard error that the walk has if
  -- nothing is readable.
  pub find_regexp_match-views :
      (find_index : Bytes → Option ℕ)
      → IsFrontal find_index
      → (w : P.World)
      → find_regexp_match P fuel find_index address w
        ≡ done (
          record {
            hit = first_match find_index (views memory 2048 (readable_from address regions));
            harderror = walk_error address (readable_from address regions);
            softerrors = [];
          },
          w,
        )
  unfolding find_regexp_match
  find_regexp_match-views find_index frontal w =
      search-views find_index st fuel enough address fits frontal 4096 refl (omega arith) w

  -- Over memory that does not change, with a buffer of even size and fuel that passes the number of
  -- regions by two and is above the size of each run, `FindBytesSequence` reports the first place
  -- of the needle in the first buffer that has it, of the buffers made from the readable runs: the
  -- first two pieces of half a buffer together, and behind them the first piece with each next one.
  -- If none has it, nothing is found. It has no soft errors, and the hard error that the walk has
  -- if nothing is readable.
  pub find_bytes_sequence-views :
      (needle : Bytes)
      → buffer_size_for needle % 2 ≡ 0
      → (w : P.World)
      → find_bytes_sequence P fuel address needle w
        ≡ done (
          record {
            hit =
                first_match
                  (λ buffer. index buffer needle)
                  (views memory (buffer_size_for needle / 2) (readable_from address regions));
            harderror = walk_error address (readable_from address regions);
            softerrors = [];
          },
          w,
        )
  unfolding find_bytes_sequence
  find_bytes_sequence-views needle even w =
      search-views (λ buffer. index buffer needle) st fuel enough address fits
        (index-IsFrontal needle) (buffer_size_for needle) even
        (unfold buffer_size_for in ground arith) w

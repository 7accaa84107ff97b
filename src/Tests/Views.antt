-- ===== src/Tests/Views.antt =====
-- Sliding walks and searches over runs longer than the buffer, and a walk that ends though some
-- addresses cannot be copied.
use masche.Prelude.{ℕ, ◌≡◌, refl, true, [], ◌∷◌, none, bytes_eq, Bytes, Option, arith}
use masche.Go.{done}
use masche.Memaccess.Region.{allows}
use masche.Memaccess.Image.{after, attach, runs, read}
use masche.Memaccess.Linux.{linux}
use masche.Memaccess.Linux.Stable.{regions_of}
use masche.Memaccess.Walk.{walk_memory}
use masche.Memaccess.Walk.Visits.{readable_from, cut, cut_first, pieces}
use masche.Memaccess.Walk.Ends.{Ends}
use masche.Memaccess.Walk.Total.{walk_memory-Ends}
use masche.Memaccess.Sliding.{sliding_walk_memory}
use masche.Memaccess.Sliding.Reuse.{note}
use masche.Memaccess.Sliding.Views.{views, piece_views, later, show_all}
use masche.Memaccess.Sliding.Stable.{sliding_walk_memory_shows}
use masche.Memsearch.{
  find_bytes_sequence, find_regexp_match, buffer_size_for, index, has_prefix, look, no_hit,
}
use masche.Memsearch.Views.{
  index-IsFrontal, look-Settles, first_match, find_bytes_sequence-views, find_regexp_match-views,
}
use masche.Tests.Memory.{sys, stable}
use masche.Tests.Searches.{torn, torn_copy, torn_lists}

abbrev needle : Bytes
needle = 18 ∷ 21 ∷ []

abbrev matcher : Bytes → Option ℕ
matcher buffer = index buffer needle

-- The bytes of an address are the address. A buffer of four bytes shows the bytes 17, 18, 21 and 22
-- together, so 18 and 21 are found, though they stand nowhere side by side.
sliding_walk_memory_shows_example :
    sliding_walk_memory (look matcher) 4 (linux sys 7) 20 17 tt no_hit
    ≡ done (
      record { harderror = none; softerrors = [] },
      tt,
      record { found = true; found_address = 20 },
    )
unfolding readable_from cut cut_first runs attach after regions_of bytes_eq allows show_all views
    piece_views later pieces read index has_prefix look
sliding_walk_memory_shows_example =
    sliding_walk_memory_shows stable (look matcher) 20 4 refl (omega arith) (omega arith) 17
      (omega arith) (look-Settles matcher (index-IsFrontal needle)) tt no_hit

find_bytes_sequence-views_example :
    find_bytes_sequence (linux sys 7) 20 17 (28 ∷ 29 ∷ []) tt
    ≡ done (
      record {
        hit = record { found = true; found_address = 28 };
        harderror = none;
        softerrors = [];
      },
      tt,
    )
unfolding readable_from cut cut_first runs attach after regions_of bytes_eq allows buffer_size_for
    first_match views piece_views later pieces read index has_prefix
find_bytes_sequence-views_example =
    find_bytes_sequence-views stable 20 (omega arith) 17 (omega arith) (28 ∷ 29 ∷ []) refl tt

abbrev find_end : Bytes → Option ℕ
find_end buffer = index buffer (29 ∷ [])

find_regexp_match-views_example :
    find_regexp_match (linux sys 7) 20 find_end 17 tt
    ≡ done (
      record {
        hit = record { found = true; found_address = 29 };
        harderror = none;
        softerrors = [];
      },
      tt,
    )
unfolding readable_from cut cut_first runs attach after regions_of bytes_eq allows first_match views
    piece_views later pieces read index has_prefix
find_regexp_match-views_example =
    find_regexp_match-views stable 20 (omega arith) 17 (omega arith) find_end
      (index-IsFrontal (29 ∷ [])) tt

walk_memory-Ends_example : Ends (walk_memory torn note 40 2 17 tt [])
walk_memory-Ends_example =
    walk_memory-Ends torn_lists 36 (omega arith) (omega arith) 40 (omega arith) (omega arith) note 2
      (omega arith) (λ a m w. (torn_copy a m, tt, refl)) 17 tt []

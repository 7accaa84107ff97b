-- ===== src/Tests/Walks.antt =====
-- The walks and the searches through the memory of the small process.
use masche.Prelude.{
  ℕ, ◌≡◌, refl, [], ◌∷◌, none, some, Bytes, codes, bytes_eq, arith, replicate, length-replicate,
}
use masche.Go.{done, odd_buffer_size}
use masche.Memaccess.Region.{allows}
use masche.Memaccess.Image.{after, first, attach, runs, found, read}
use masche.Memaccess.Linux.{linux}
use masche.Memaccess.Linux.Stable.{regions_of}
use masche.Memaccess.Next.{next_readable_memory_region}
use masche.Memaccess.Next.Stable.{next_readable_memory_region_lem}
use masche.Memaccess.Walk.{walk_memory}
use masche.Memaccess.Walk.Visits.{pieces, visits, cut, cut_first, readable_from, feed}
use masche.Memaccess.Walk.Stable.{walk_memory_lem, reply}
use masche.Memaccess.Sliding.{slide_step, fresh}
use masche.Memaccess.Sliding.Reuse.{note, run_shown}
use masche.Memsearch.{no_hit, find_bytes_sequence}
use masche.Memsearch.Complete.{find_bytes_sequence_odd}
use masche.Tests.Memory.{sys, memory, stable}

-- From the second byte of the first run on.
walk_memory_lem_example :
    walk_memory (linux sys 7) note 20 4 17 tt []
    ≡ done (
      reply none,
      tt,
      (17, 17 ∷ 18 ∷ 19 ∷ 20 ∷ [])
          ∷ (21, 21 ∷ 22 ∷ 23 ∷ 24 ∷ [])
          ∷ (25, 25 ∷ 26 ∷ 27 ∷ 28 ∷ [])
          ∷ (29, 29 ∷ [])
          ∷ (48, 48 ∷ 49 ∷ 50 ∷ [])
          ∷ [],
    )
unfolding readable_from visits feed cut cut_first pieces runs attach after read regions_of bytes_eq
    allows
walk_memory_lem_example =
    walk_memory_lem stable note 20 4 (omega arith) (omega arith) 17 tt [] (omega arith)

next_readable_memory_region_lem_example :
    next_readable_memory_region (linux sys 7) 20 20 tt
    ≡ done (found record { address = 20; size = 10; access = 3; kind = codes "[heap]" }, tt)
unfolding runs attach after first regions_of bytes_eq allows
next_readable_memory_region_lem_example =
    next_readable_memory_region_lem stable.lists 20 (omega arith) 20 tt

run_shown_example :
    (feed memory
      (slide_step note 4)
      ((16, 2) ∷ (18, 2) ∷ (20, 2) ∷ (22, 2) ∷ [])
      (fresh note 4 [])).1.user
    ≡ (16, 16 ∷ 17 ∷ 18 ∷ 19 ∷ [])
      ∷ (18, 16 ∷ 17 ∷ 20 ∷ 21 ∷ [])
      ∷ (20, 16 ∷ 17 ∷ 22 ∷ 23 ∷ [])
      ∷ []
unfolding read
run_shown_example = run_shown memory 4 refl (omega arith) 2 16 (omega arith) (omega arith)

abbrev odd_needle : Bytes
odd_needle = replicate 4097 0

find_bytes_sequence_odd_example :
    find_bytes_sequence (linux sys 7) 20 16 odd_needle tt
    ≡ done (record { hit = no_hit; harderror = some odd_buffer_size; softerrors = [] }, tt)
find_bytes_sequence_odd_example =
    find_bytes_sequence_odd odd_needle (linux sys 7) 20 16 tt
      (omega (arith, length-replicate {A = ℕ} 4097 0))
      (omega (arith, length-replicate {A = ℕ} 4097 0))

-- ===== src/Tests/Searches.antt =====
-- Searches over runs that fit in the buffer, and walks over platforms that fail or never get on.
use masche.Prelude.{
  ℕ, inl, ◌≡◌, refl, true, [], ◌∷◌, none, some, bytes_eq, ◌==◌, if◌then◌else◌, arith, replicate,
}
use masche.Go.{done, odd_buffer_size}
use masche.Memaccess.Region.{MemoryRegion, allows, Copied}
use masche.Memaccess.Platform.{Platform}
use masche.Memaccess.Image.{after, first, attach, runs, found, read, Lists}
use masche.Memaccess.Linux.{linux}
use masche.Memaccess.Linux.Stable.{regions_of}
use masche.Memaccess.Walk.Visits.{readable_from, cut, cut_first}
use masche.Memaccess.Sliding.{slide_step, fresh}
use masche.Memaccess.Sliding.Reuse.{note}
use masche.Memaccess.Sliding.Invariant.{IsWindow, slide_step-IsWindow}
use masche.Memsearch.{find_bytes_sequence, buffer_size_for, index, has_prefix}
use masche.Memsearch.Sound.{find_bytes_sequence_sound}
use masche.Memsearch.Exact.{find_bytes_sequence_exact, first_hit}
use masche.Tests.Memory.{sys, memory, stable}

-- The bytes of an address are the address, so 28 and 29 stand at the end of the first run.
find_bytes_sequence_exact_example :
    find_bytes_sequence (linux sys 7) 20 17 (28 ∷ 29 ∷ []) tt
    ≡ done (
      record {
        hit = record { found = true; found_address = 28 };
        harderror = none;
        softerrors = [];
      },
      tt,
    )
unfolding readable_from cut cut_first runs attach after regions_of bytes_eq allows buffer_size_for
    first_hit index has_prefix read
find_bytes_sequence_exact_example =
    find_bytes_sequence_exact (28 ∷ 29 ∷ []) stable 20 (omega arith) 17 (omega arith) refl
      (omega arith) tt

-- The search's result once more, for the next run.
found_at_28 :
    find_bytes_sequence (linux sys 7) 20 17 (28 ∷ 29 ∷ []) tt
    ≡ done (
      record {
        hit = record { found = true; found_address = 28 };
        harderror = none;
        softerrors = [];
      },
      tt,
    )
unfolding readable_from cut cut_first runs attach after regions_of bytes_eq allows buffer_size_for
    first_hit index has_prefix read
found_at_28 =
    find_bytes_sequence_exact (28 ∷ 29 ∷ []) stable 20 (omega arith) 17 (omega arith) refl
      (omega arith) tt

find_bytes_sequence_sound_example : read memory 28 2 ≡ 28 ∷ 29 ∷ []
unfolding readable_from cut cut_first runs attach after regions_of bytes_eq allows buffer_size_for
find_bytes_sequence_sound_example =
    find_bytes_sequence_sound (28 ∷ 29 ∷ []) stable 20 (omega arith) 17 (omega arith) refl
      (omega arith) tt tt
      record {
        hit = record { found = true; found_address = 28 };
        harderror = none;
        softerrors = [];
      }
      found_at_28 refl

slide_step-IsWindow_example : IsWindow 4 (slide_step note 4 16 (1 ∷ 2 ∷ []) (fresh note 4 [])).1
slide_step-IsWindow_example =
    slide_step-IsWindow note 4 16 (1 ∷ 2 ∷ []) (fresh note 4 []) (refl, inl refl)

-- One region of four bytes, of which the first two can be copied.
abbrev lower : MemoryRegion
lower = record { address = 16; size = 4; access = 1; kind = [] }

abbrev upper : MemoryRegion
upper = record { address = 32; size = 4; access = 1; kind = [] }

abbrev pub torn_copy : ℕ → ℕ → Copied
torn_copy a n =
    if a == 18
    then record { buffer = []; harderror = some odd_buffer_size; softerrors = [] }
    else record { buffer = replicate n a; harderror = none; softerrors = [] }

abbrev pub torn : Platform
torn = record {
  World = Unit {0};
  next_memory_region = λ a w. done (found (first (after a (lower ∷ upper ∷ []))), w);
  copy_memory = λ a n w. done (torn_copy a n, w);
}

abbrev pub torn_lists : Lists torn (lower ∷ upper ∷ [])
torn_lists = record { layout = omega arith; next = λ a w. refl }

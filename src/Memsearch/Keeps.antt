-- ===== src/Memsearch/Keeps.antt =====
-- What a search leaves open or allocated, whatever the system answers.
use masche.Prelude.{ℕ, ◌/◌, ◌%◌, ◌==◌, ◌≡◌, refl, Option, Bytes, Bool-cases, inl, inr}
use masche.System.{System}
use masche.Cresponse.{Responses}
use masche.Memaccess.Platform.{Platform}
use masche.Memaccess.Linux.{linux}
use masche.Memaccess.Linux.Files.{Files, linux-Keeps}
use masche.Memaccess.Calls.{MemoryCalls, c_platform}
use masche.Memaccess.Calls.Live.{Responds, c_platform-Keeps}
use masche.Memaccess.Walk.{walk_memory, WalkFunc, Reply}
use masche.Memaccess.Walk.Keeps.{Holds, Holds-bind, Keeps, walk_memory_keeps}
use masche.Memaccess.Sliding.{sliding_walk_memory, slide_step, fresh}
use masche.Memsearch.{Search, no_hit, look, search}

module _ {P : Platform} {I : P.World → Type 0} (keeps : Keeps P I) (fuel : ℕ) where
  sliding_keeps :
      {S : Type 0} (walk_fn : WalkFunc S) (buf_size start : ℕ) (w : P.World) (s : S)
      → I w
      → Holds
          (λ (v : Reply × P.World × S). I v.1)
          (sliding_walk_memory walk_fn buf_size P fuel start w s)
  unfolding sliding_walk_memory
  sliding_keeps walk_fn buf_size start w s h = elim (Bool-cases (buf_size % 2 == 0)) [
    | inr e ↦ rw (e, Holds) h
    | inl e ↦
        rw (e, Holds)
          (Holds-bind _ _
            (walk_memory P (slide_step walk_fn buf_size) fuel (buf_size / 2) start w
              (fresh walk_fn buf_size s))
            _
            (walk_memory_keeps keeps (slide_step walk_fn buf_size) fuel (buf_size / 2) start w
              (fresh walk_fn buf_size s) h)
            (λ v k. k))
  ]

  search_keeps :
      (match_at : Bytes → Option ℕ) (buffer_size address : ℕ) (w : P.World)
      → I w
      → Holds (λ (v : Search × P.World). I v.1) (search P fuel match_at buffer_size address w)
  unfolding search
  search_keeps match_at buffer_size address w h =
      Holds-bind _ _ (sliding_walk_memory (look match_at) buffer_size P fuel address w no_hit) _
        (sliding_keeps (look match_at) buffer_size address w no_hit h) (λ v k. k)

-- A search on Linux, whatever the system answers and wherever it stops, leaves the same files open
-- as before, unless it panics or the fuel does not suffice.
pub linux-search_closes :
    {sys : System} (files : Files sys) (pid fuel buffer_size address : ℕ)
    (match_at : Bytes → Option ℕ) (w : sys.World)
    → Holds
        (λ (v : Search × sys.World). files.opened v.1 ≡ files.opened w)
        (search (linux sys pid) fuel match_at buffer_size address w)
linux-search_closes files pid fuel buffer_size address match_at w =
    search_keeps (linux-Keeps files pid (files.opened w)) fuel match_at buffer_size address w refl

-- Where every C function makes one response and `response_free` frees it, a search on Windows or
-- Darwin leaves the same responses allocated as before, whatever the functions answer, unless it
-- panics or the fuel does not suffice.
pub c_search_frees :
    {R : Responses} {C : MemoryCalls R} (responds : Responds C) (fuel buffer_size address : ℕ)
    (match_at : Bytes → Option ℕ) (w : R.World)
    → Holds
        (λ (v : Search × R.World). responds.allocation.live v.1 ≡ responds.allocation.live w)
        (search (c_platform R C) fuel match_at buffer_size address w)
c_search_frees responds fuel buffer_size address match_at w =
    search_keeps (c_platform-Keeps responds (responds.allocation.live w)) fuel match_at buffer_size
      address w refl

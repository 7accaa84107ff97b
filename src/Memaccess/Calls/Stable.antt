-- ===== src/Memaccess/Calls/Stable.antt =====
-- The C functions over memory that does not change, as a process of the abstract view.
use masche.Prelude.{
  ℕ, zero, suc, ◌+◌, ◌%◌, ◌^◌, ◌≤◌, ◌<◌, ◌≡◌, refl, Bool, true, false, List, [], ◌∷◌, none, All,
  arith, leb, inl, inr, Bool-cases,
}
use masche.Go.{done}
use masche.Cresponse.{
  Responses, ResponseT, take_response, get_responses_errors, hard_error, soft_loop,
}
use masche.Memaccess.Region.{MemoryRegion}
use masche.Memaccess.Image.{IsLayout, IsStable, HoldsAt, end_of, after, first, read, found, copied}
use masche.Memaccess.Calls.{
  CRegion, MemoryCalls, region_of, next_memory_region, copy_error, copy_memory, c_platform,
}

abbrev pub no_error : ResponseT
no_error = record { fatal_error = none; soft_errors = [] }

-- The C function's answer to a lookup: the first of the regions, or that there is none.
abbrev pub Answer : List MemoryRegion → Bool × CRegion → Type 0
Answer [] (available, c) = available ≡ false
Answer (r ∷ rs) (available, c) =
    (available ≡ true)
    × (c ≡ record {
      start_address = r.address;
      length_of = r.size;
      access = r.access;
      kind = r.kind;
    })

-- A response is made and freed, and the process's memory stays as it is.
pub record Serves {R : Responses} (C : MemoryCalls R) (regions : List MemoryRegion) (memory : ℕ → ℕ)
    (w : R.World) : Type 0 where
  pub finds :
      (a : ℕ)
      → Answer
          (after a regions)
          ((C.get_next_memory_region a w).0.0, (C.get_next_memory_region a w).0.1)
  pub finds_fine :
      (a : ℕ)
      → R.points_to (C.get_next_memory_region a w).0.2 (C.get_next_memory_region a w).1 ≡ no_error
  pub finds_back :
      (a : ℕ)
      → R.response_free (C.get_next_memory_region a w).0.2 (C.get_next_memory_region a w).1 ≡ w
  pub copies :
      (a n : ℕ)
      → 0 < n
      → ((x : ℕ) → a ≤ x → x < a + n → HoldsAt regions x)
      → ((C.copy_process_memory a n w).0.0 ≡ read memory a n)
        × ((C.copy_process_memory a n w).0.1 ≡ n)
        × (R.points_to (C.copy_process_memory a n w).0.2 (C.copy_process_memory a n w).1 ≡ no_error)
        × (R.response_free (C.copy_process_memory a n w).0.2 (C.copy_process_memory a n w).1 ≡ w)

-- What the lookup makes of the C function's answer.
region_of-Answer :
    (rs : List MemoryRegion) (available : Bool) (c : CRegion)
    → All (λ (r : MemoryRegion). r.access < 2 ^ 8) rs
    → Answer rs (available, c)
    → region_of available c ≡ first rs
unfolding first region_of
region_of-Answer [] available c h e = rw e refl
region_of-Answer (r ∷ rs) available c (h, hs) (e, f) =
    let same : r.access % 2 ^ 8 ≡ r.access = omega (arith, h) in rw (e, f, region_of, same) refl

after-All :
    (P : MemoryRegion → Type 0) (a : ℕ) (rs : List MemoryRegion) → All P rs → All P (after a rs)
unfolding after
after-All P a [] h = tt
after-All P a (r ∷ rs) (h, hs) = elim (Bool-cases (leb (end_of r) a)) [
  | inl e ↦ rw e (after-All P a rs hs)
  | inr e ↦ rw e (h, hs)
]

module _ {R : Responses} {C : MemoryCalls R} {regions : List MemoryRegion} {memory : ℕ → ℕ}
    (layout : IsLayout 1 regions) (bytes : All (λ (r : MemoryRegion). r.access < 2 ^ 8) regions)
    (serves : (w : R.World) → Serves C regions memory w) where
  next_found :
      (a : ℕ) (w : R.World) → next_memory_region R C a w ≡ done (found (first (after a regions)), w)
  unfolding next_memory_region take_response get_responses_errors hard_error soft_loop
  next_found a w =
      let s = serves w in
      let e =
        region_of-Answer (after a regions) (C.get_next_memory_region a w).0.0
          (C.get_next_memory_region a w).0.1 (after-All _ a regions bytes) (s.finds a) in
      rw (s.finds_fine a, s.finds_back a, e) refl

  copy_found :
      (a n : ℕ) (w : R.World)
      → 0 < n
      → ((x : ℕ) → a ≤ x → x < a + n → HoldsAt regions x)
      → copy_memory R C a n w ≡ done (copied (read memory a n), w)
  unfolding copy_memory take_response get_responses_errors copy_error hard_error soft_loop
  copy_found a zero w p holds = absurd (omega arith)
  copy_found a (suc m) w p holds =
      let (buffer, count, fine, back) = (serves w).copies a (suc m) p holds in
      rw (buffer, count, fine, back) (ground arith)

  -- If, in every state, the C functions report without errors the first of the regions that do not
  -- end at or before an address and all the bytes of readable memory, and freeing a response gives
  -- the state before its call, and the regions begin at 1 or later, have bytes, go up without
  -- overlap, end below 2 ^ 64 and have an access below 256, then `nextMemoryRegion` and
  -- `copyMemory` of the C wrapper are those of a process whose memory does not change.
  pub c_platform-IsStable : IsStable (c_platform R C) regions memory
  c_platform-IsStable = record {
    lists = record { layout = layout; next = next_found };
    copy = copy_found;
  }

-- ===== src/Memaccess/Walk/Retries.antt =====
-- A walk that comes to memory that cannot be copied.
use masche.Prelude.{
  ℕ, zero, suc, ◌+◌, ◌≤◌, ◌<◌, ◌≡◌, refl, true, false, List, [], ◌∷◌, ◌++◌, append-nil, some, ltb,
  if◌then◌else◌, length, arith, ◌∙◌,
}
use masche.Go.{Error, done, word, retries_exceeded}
use masche.Memaccess.Region.{MemoryRegion, limit, is_no_region, Copied}
use masche.Memaccess.Platform.{Platform}
use masche.Memaccess.Image.{IsLayout, Lists, after, first, runs, found}
use masche.Memaccess.Image.Layout.{is_no_region-pos, after-IsLayout}
use masche.Memaccess.Image.Runs.{IsLayout-runs}
use masche.Memaccess.Next.{next_readable_memory_region}
use masche.Memaccess.Next.Stable.{next_readable_memory_region_lem}
use masche.Memaccess.Walk.{
  WalkFunc, RegionWalk, retry, onward, turn, move_up, max_retries, copy_memory, walk_region_loop,
  walk_region, walk_loop,
}

module _ {P : Platform} {regions : List MemoryRegion} (st : Lists P regions) {S : Type 0}
    (walk_fn : WalkFunc S) (fuel n : ℕ) (enough : length regions < fuel) (x : ℕ) (r : MemoryRegion)
    (rest : List MemoryRegion) (run : runs (after x regions) ≡ r ∷ rest) (inside : r.address ≤ x)
    (e : Error) (c : Copied) (fails : c.harderror ≡ some e) (quiet : c.softerrors ≡ [])
    (copies : (w : P.World)
      → P.copy_memory x (if ltb r.size n then r.size else n) w ≡ done (c, w)) where
  -- The region that a retry goes on with.
  abbrev retried : MemoryRegion
  retried = record r { address = x }

  abbrev failed : RegionWalk
  failed = record { keep_walking = true; error_address = x; harderror = some e; softerrors = [] }

  run_IsLayout : IsLayout 1 (r ∷ rest)
  run_IsLayout =
      rw run at (IsLayout-runs (after x regions) 1 (after-IsLayout regions x 1 st.layout))

  region_fails :
      (w : P.World) (s : S) → walk_region P walk_fn fuel n retried w s ≡ done (failed, w, s)
  unfolding walk_region
  region_fails w s = loop fuel (omega (arith, enough))
    where
      loop :
          (rounds : ℕ)
          → 0 < rounds
          → walk_region_loop P walk_fn rounds n x r.size [] w s ≡ done (failed, w, s)
      loop zero h = absurd (omega arith)
      loop (suc rounds) h =
          unfold walk_region_loop copy_memory in ground (arith, copies w, run_IsLayout.1)

  found_again : (w : P.World) → next_readable_memory_region P fuel x w ≡ done (found r, w)
  unfolding first
  found_again w = next_readable_memory_region_lem st fuel enough x w ∙ rw run refl

  move_up-retried : move_up x r ≡ retried
  unfolding move_up
  move_up-retried = ground (arith, inside)

  retried_is_region : is_no_region retried ≡ false
  retried_is_region = is_no_region-pos retried run_IsLayout.1

  turn_retry : (k : ℕ) → turn n (suc k) failed ≡ retry x k
  unfolding turn
  turn_retry k = refl

  turn_onward : turn n zero failed ≡ onward (retries_exceeded n x e ∷ [])
  unfolding turn
  turn_onward = refl

  retry_step :
      (rounds k : ℕ) (softs : List Error) (w : P.World) (s : S)
      → walk_loop P walk_fn fuel n (suc rounds) (suc k) retried softs w s
        ≡ walk_loop P walk_fn fuel n rounds k retried softs w s
  unfolding walk_loop
  retry_step rounds k softs w s = ground (
    arith,
    retried_is_region,
    region_fails w s,
    turn_retry k,
    found_again w,
    move_up-retried,
    append-nil softs,
  )

  module _ (below : x + r.size < word) where
    -- Where the walk goes on.
    abbrev further : MemoryRegion
    further = first (runs (after (x + r.size) regions))

    found_further :
        (w : P.World)
        → next_readable_memory_region P fuel (limit retried) w ≡ done (found further, w)
    found_further w =
        let e : limit retried ≡ x + r.size = omega (arith, below) in
        rw e (next_readable_memory_region_lem st fuel enough (x + r.size) w)

    give_up :
        (rounds : ℕ) (softs : List Error) (w : P.World) (s : S)
        → walk_loop P walk_fn fuel n (suc rounds) zero retried softs w s
          ≡ walk_loop P walk_fn fuel n rounds max_retries further
              (softs ++ retries_exceeded n x e ∷ [])
              w
              s
    unfolding walk_loop
    give_up rounds softs w s = ground (
      arith,
      retried_is_region,
      region_fails w s,
      turn_onward,
      found_further w,
      append-nil softs,
      append-nil (softs ++ retries_exceeded n x e ∷ []),
    )

    -- Where the lookups do not change, if each copy of the size that the walk tries at an address
    -- inside the first run there, the size of the run or of the buffer, whichever is less, returns
    -- the same hard error without soft errors, and the address plus the size of the whole run is
    -- below 2 ^ 64, then the walk that retries from that address uses up its retries, adds one soft
    -- error and goes on at the first run that does not end at or before the address plus the size
    -- of the whole run, also where the failed run ends earlier. The fuel of a lookup is enough if
    -- it is above the number of regions.
    pub walk_loop_gives_up :
        (k rounds : ℕ) (softs : List Error) (w : P.World) (s : S)
        → walk_loop P walk_fn fuel n (suc (k + rounds)) k retried softs w s
          ≡ walk_loop P walk_fn fuel n rounds max_retries
              (first (runs (after (x + r.size) regions)))
              (softs ++ retries_exceeded n x e ∷ [])
              w
              s
    walk_loop_gives_up zero rounds softs w s =
        let same : zero + rounds ≡ rounds = omega arith in rw same (give_up rounds softs w s)
    walk_loop_gives_up (suc k) rounds softs w s =
        let same : suc k + rounds ≡ suc (k + rounds) = omega arith in
        rw (same, retry_step (suc (k + rounds)) k softs w s) (walk_loop_gives_up k rounds softs w s)

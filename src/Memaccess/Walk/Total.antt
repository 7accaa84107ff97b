-- ===== src/Memaccess/Walk/Total.antt =====
-- `WalkMemory` ends, also where memory cannot be copied and whatever the copies do to the world.
use masche.Prelude.{
  ℕ, zero, suc, ◌+◌, ◌*◌, ◌≤◌, ◌<◌, ◌≡◌, refl, true, false, List, [], ◌++◌, none, some, length, All,
  arith, inl, inr, ap,
}
use masche.Go.{Error, done, word, start_not_contained}
use masche.Memaccess.Region.{MemoryRegion, no_region_available, limit, is_no_region}
use masche.Memaccess.Platform.{Platform}
use masche.Memaccess.Image.{end_of, Lists, after, first, runs, found}
use masche.Memaccess.Image.Layout.{is_no_region-pos, is_no_region-none, length-after}
use masche.Memaccess.Image.Runs.{length-runs}
use masche.Memaccess.Image.Rank.{rank, rank-le}
use masche.Memaccess.Next.{next_readable_memory_region}
use masche.Memaccess.Next.Stable.{next_readable_memory_region_lem}
use masche.Memaccess.Walk.{
  WalkFunc, RegionWalk, Reply, stop, retry, onward, turn, move_up, max_retries, walk_region_loop,
  walk_region, walk_loop, walk_memory,
}
use masche.Memaccess.Walk.Ends.{Copies, Ends, walk_region-Ends}
use masche.Memaccess.Walk.Keeps.{Turn-cases}
use masche.Memaccess.Walk.Failing.{FailsInside, walk_region-FailsInside, turn_retries}
use masche.Memaccess.Walk.Fine.{
  behind_first, cut_before-Fine, found-Fine, move_up-Fine, Fine, nothing, empty, inside,
}

module _ {P : Platform} {regions : List MemoryRegion} (st : Lists P regions) (top : ℕ)
    (low : All (λ (r : MemoryRegion). end_of r ≤ top) regions) (small : top + top < word) (fuel : ℕ)
    (above : top < fuel) (enough : 6 * length regions + 8 < fuel) where
  looked_up :
      (a : ℕ) (w : P.World)
      → next_readable_memory_region P fuel a w ≡ done (found (first (runs (after a regions))), w)
  looked_up a w = next_readable_memory_region_lem st fuel (omega (arith, enough)) a w

  module _ {S : Type 0} (walk_fn : WalkFunc S) (n : ℕ) (p : 0 < n) (returns : Copies P) where
    no_region-Ends :
        (rounds retries : ℕ) (r : MemoryRegion) (softs : List Error) (w : P.World) (s : S)
        → is_no_region r ≡ true
        → 0 < rounds
        → Ends (walk_loop P walk_fn fuel n rounds retries r softs w s)
    unfolding walk_loop
    no_region-Ends zero retries r softs w s h q = absurd (omega arith)
    no_region-Ends (suc rounds) retries r softs w s h q =
        let end : Reply = record { harderror = none; softerrors = softs } in
        ((end, w, s), ground (arith, h))

    walk_empty :
        (r : MemoryRegion) (w : P.World) (s : S)
        → r.size ≡ 0
        → walk_region P walk_fn fuel n r w s
          ≡ done (
            record { keep_walking = true; error_address = 0; harderror = none; softerrors = [] },
            w,
            s,
          )
    unfolding walk_region
    walk_empty r w s h = rw h (nothing_read fuel (omega (arith, above)))
      where
        nothing_read :
            (rounds : ℕ)
            → 0 < rounds
            → walk_region_loop P walk_fn rounds n r.address 0 [] w s
              ≡ done (
                record {
                  keep_walking = true;
                  error_address = 0;
                  harderror = none;
                  softerrors = [];
                },
                w,
                s,
              )
        nothing_read zero h = absurd (omega arith)
        nothing_read (suc rounds) h = unfold walk_region_loop in refl

    turn_onward :
        (retries : ℕ)
        → turn n retries
            (record { keep_walking = true; error_address = 0; harderror = none; softerrors = [] })
          ≡ onward []
    unfolding turn
    turn_onward zero = refl
    turn_onward (suc k) = refl

    module _ (rounds retries : ℕ) (r : MemoryRegion) (softs : List Error) (w w1 : P.World)
        (s s1 : S) (v : RegionWalk) (some_region : is_no_region r ≡ false)
        (walked : walk_region P walk_fn fuel n r w s ≡ done (v, w1, s1)) where
      stop-Ends :
          turn n retries v ≡ stop
          → Ends (walk_loop P walk_fn fuel n (suc rounds) retries r softs w s)
      unfolding walk_loop
      stop-Ends t =
          let end : Reply = record { harderror = none; softerrors = softs ++ v.softerrors } in
          ((end, w1, s1), ground (arith, some_region, walked, t))

      retry_again :
          (addr left : ℕ)
          → turn n retries v ≡ retry addr left
          → walk_loop P walk_fn fuel n (suc rounds) retries r softs w s
            ≡ walk_loop P walk_fn fuel n rounds left
                (move_up addr (first (runs (after addr regions))))
                ((softs ++ v.softerrors) ++ [])
                w1
                s1
      unfolding walk_loop
      retry_again addr left t = ground (arith, some_region, walked, t, looked_up addr w1)

      onward_again :
          (more : List Error)
          → turn n retries v ≡ onward more
          → walk_loop P walk_fn fuel n (suc rounds) retries r softs w s
            ≡ walk_loop P walk_fn fuel n rounds max_retries
                (first (runs (after (limit r) regions)))
                (((softs ++ v.softerrors) ++ more) ++ [])
                w1
                s1
      unfolding walk_loop
      onward_again more t = ground (arith, some_region, walked, t, looked_up (limit r) w1)

    -- Six passes for each run that is left: one, and its retries.
    loop_total :
        (rounds k retries : ℕ) (r : MemoryRegion) (softs : List Error) (w : P.World) (s : S)
        → Fine st top low small fuel above enough k r
        → retries ≤ max_retries
        → 6 * k + retries + 2 < rounds
        → Ends (walk_loop P walk_fn fuel n rounds retries r softs w s)
    loop_total zero k retries r softs w s f b h = absurd (omega arith)
    loop_total (suc rounds) k retries r softs w s (nothing e) b h =
        no_region-Ends (suc rounds) retries r softs w s e (omega arith)
    loop_total (suc rounds) k retries r softs w s (empty no_bytes q below e) b h =
        let some_region : is_no_region r ≡ false = unfold is_no_region in ground arith in
        let v : RegionWalk = record {
          keep_walking = true;
          error_address = 0;
          harderror = none;
          softerrors = [];
        } in
        let walked : walk_region P walk_fn fuel n r w s ≡ done (v, w, s) =
          walk_empty r w s no_bytes in
        let t : turn n retries v ≡ onward [] = turn_onward retries in
        let here : limit r ≡ r.address = omega (arith, no_bytes, below) in
        let no_more : first (runs (after (limit r) regions)) ≡ no_region_available =
          rw (here, e) (unfold first in refl) in
        rw (onward_again rounds retries r softs w w s s v some_region walked [] t, no_more)
          (no_region-Ends rounds max_retries no_region_available (((softs ++ []) ++ []) ++ []) w s
            is_no_region-none (omega arith))
    loop_total (suc rounds) k retries r softs w s (inside t rest e l ends below size q) b h =
        let ((v, w1, s1), walked) = walk_region-Ends P walk_fn returns fuel n r w s p size in
        let some_region = is_no_region-pos r q in
        let failing : FailsInside r.address (end_of r) v =
          rw walked at (walk_region-FailsInside P walk_fn fuel n r w s below) in
        elim (Turn-cases (turn n retries v)) [
          | inl stops ↦ stop-Ends rounds retries r softs w w1 s s1 v some_region walked stops
          | inr (inl (addr, left, again)) ↦
              let (x, failed, at, one_less) = turn_retries n retries addr left v again in
              let (from, to) = failing x failed in
              let k' = rank regions addr in
              let fewer : k' ≤ k = omega (
                arith,
                rank-le regions r.address addr (omega (arith, from, at)),
                l,
                ap (λ (t : List MemoryRegion). length t) e,
              ) in
              rw (retry_again rounds retries r softs w w1 s s1 v some_region walked addr left again)
                (loop_total rounds k' left (move_up addr (first (runs (after addr regions))))
                  ((softs ++ v.softerrors) ++ []) w1 s1
                  (move_up-Fine st top low small fuel above enough addr
                    (omega (arith, to, at, below)))
                  (omega arith) (omega (arith, fewer, one_less)))
          | inr (inr (more, on)) ↦
              let k' = rank regions (limit r) in
              let fewer : k' < k = omega (
                arith,
                l,
                behind_first st top low small fuel above enough r.address (limit r) t rest e
                    (omega (arith, ends, below)),
              ) in
              rw (onward_again rounds retries r softs w w1 s s1 v some_region walked more on) (
                loop_total rounds k' max_retries (first (runs (after (limit r) regions)))
                  (((softs ++ v.softerrors) ++ more) ++ []) w1 s1
                  (found-Fine st top low small fuel above enough (limit r)) (omega arith)
                  (omega (arith, fewer, b)))
        ]

    -- Where the lookups find the first of a fixed list of regions that go up without overlap and
    -- end at or below a bound whose double is below 2 ^ 64, and each copy returns, with or without
    -- an error and whatever it does to the world, `WalkMemory` with a buffer of at least one byte
    -- ends, for each callback. The fuel is enough if it is above the bound and passes six times the
    -- number of regions by nine.
    pub walk_memory-Ends :
        (start : ℕ) (w : P.World) (s : S) → Ends (walk_memory P walk_fn fuel n start w s)
    unfolding walk_memory
    walk_memory-Ends start w s = elim (cut_before-Fine st top low small fuel above enough start) [
      | inl e ↦
          let failed : Reply = record { harderror = some start_not_contained; softerrors = [] } in
          ((failed, w, s), ground (arith, looked_up start w, e))
      | inr (r, e, f) ↦
          let ((v, w1, s1), ends) =
            loop_total fuel (rank regions start) max_retries r [] w s f (omega arith) (
              omega
                (arith, enough, length-runs (after start regions), length-after regions start)) in
          ((v, w1, s1), ground (arith, looked_up start w, e, ends))
    ]

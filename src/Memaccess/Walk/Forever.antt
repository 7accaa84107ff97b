-- ===== src/Memaccess/Walk/Forever.antt =====
-- `WalkMemory` where a readable region begins at address 0.
use masche.Prelude.{
  ◌+◌, ℕ, zero, suc, ◌-◌, ◌≤◌, ◌<◌, ◌≡◌, refl, ◌⊎◌, inl, inr, true, List, [], ◌++◌, none, Bytes,
  ltb, if◌then◌else◌, arith, Bool-cases,
}
use masche.Go.{Error, done, out_of_fuel, word, add64, sub64}
use masche.Memaccess.Region.{readable, allows, MemoryRegion, limit, no_region_available, Copied}
use masche.Memaccess.Platform.{Platform}
use masche.Memaccess.Image.{end_of, found}
use masche.Memaccess.Image.Layout.{is_no_region-pos, is_no_region-none}
use masche.Memaccess.Next.{
  next_memory_region, next_memory_region_access, extend, next_readable_memory_region,
}
use masche.Memaccess.Walk.{
  WalkFunc, RegionWalk, onward, turn, cut_before, max_retries, copy_memory, walk_region_loop,
  walk_region, walk_loop, walk_memory,
}

-- The region is at address 0, the only one, and can be copied.
pub record IsAtZero (P : Platform) (r : MemoryRegion) : Type 0 where
  pub at_zero : r.address ≡ 0
  pub has_bytes : 0 < r.size
  pub small : r.size < word
  pub can_read : allows r.access readable ≡ true
  pub next_in : (a : ℕ) (w : P.World) → a < r.size → P.next_memory_region a w ≡ done (found r, w)
  pub next_behind :
      (a : ℕ) (w : P.World)
      → r.size ≤ a
      → P.next_memory_region a w ≡ done (found no_region_available, w)
  pub copies :
      (a m : ℕ) (w : P.World)
      → 0 < m
      → a + m ≤ r.size
      → (c : Copied) × (w' : P.World) × (P.copy_memory a m w ≡ done (c, w')) × (c.harderror ≡ none)

module _ {P : Platform} {r : MemoryRegion} (z : IsAtZero P r) where
  access_in :
      (rounds a : ℕ) (w : P.World)
      → a < r.size
      → next_memory_region_access P (suc rounds) a readable w ≡ done (found r, w)
  unfolding next_memory_region_access next_memory_region
  access_in rounds a w h =
      ground (arith, z.next_in a w h, is_no_region-pos r z.has_bytes, z.can_read)

  access_behind :
      (rounds a : ℕ) (w : P.World)
      → r.size ≤ a
      → next_memory_region_access P (suc rounds) a readable w ≡ done (found no_region_available, w)
  unfolding next_memory_region_access next_memory_region
  access_behind rounds a w h = ground (arith, z.next_behind a w h, is_no_region-none)

  extend_behind :
      (fuel rounds : ℕ) (x : MemoryRegion) (w : P.World)
      → limit x ≡ r.size
      → extend P (suc fuel) (suc rounds) x w ≡ done (x, w)
  unfolding extend
  extend_behind fuel rounds x w h =
      ground (arith, access_behind fuel (limit x) w (omega (arith, h)), is_no_region-none)

  -- `NoRegionAvailable` grows by the region at 0.
  abbrev grown : MemoryRegion
  grown = record no_region_available { size = r.size }

  extend_nothing :
      (fuel rounds : ℕ) (w : P.World)
      → extend P (suc fuel) (suc (suc rounds)) no_region_available w ≡ done (grown, w)
  unfolding extend
  extend_nothing fuel rounds w = ground (
    arith,
    access_in fuel 0 w z.has_bytes,
    is_no_region-pos r z.has_bytes,
    z.at_zero,
    z.small,
    extend_behind fuel rounds grown w (omega (arith, z.small)),
  )

  -- A region that the walk goes on with.
  abbrev AtEnd : MemoryRegion → Type 0
  AtEnd x = (end_of x ≡ r.size) × (0 < x.size)

  grown-AtEnd : AtEnd grown
  grown-AtEnd = (omega (arith, z.small), z.has_bytes)

  itself-AtEnd : AtEnd r
  itself-AtEnd = (omega (arith, z.small, z.at_zero), z.has_bytes)

  itself-limit : limit r ≡ r.size
  itself-limit = omega (arith, z.small, z.at_zero)

  lookup_in :
      (fuel a : ℕ) (w : P.World)
      → a < r.size
      → (next_readable_memory_region P fuel a w ≡ out_of_fuel)
        ⊎ (next_readable_memory_region P fuel a w ≡ done (found r, w))
  unfolding next_readable_memory_region next_memory_region_access
  lookup_in zero a w h = inl refl
  lookup_in (suc fuel) a w h =
      inr (ground (arith, access_in fuel a w h, extend_behind fuel fuel r w itself-limit))

  lookup_behind :
      (fuel : ℕ) (w : P.World)
      → (next_readable_memory_region P fuel r.size w ≡ out_of_fuel)
        ⊎ (next_readable_memory_region P fuel r.size w ≡ done (found grown, w))
  unfolding next_readable_memory_region next_memory_region_access extend
  lookup_behind zero w = inl refl
  lookup_behind (suc zero) w = inl (
      ground (
        arith,
        access_behind 0 r.size w (omega arith),
        access_in 0 0 w z.has_bytes,
        is_no_region-pos r z.has_bytes,
        z.at_zero,
      ))
  lookup_behind (suc (suc fuel)) w = inr (
      ground
        (arith, access_behind (suc fuel) r.size w (omega arith), extend_nothing (suc fuel) fuel w))

  module _ {S : Type 0} (walk_fn : WalkFunc S)
      (goes_on : (a : ℕ) (b : Bytes) (s : S) → (walk_fn a b s).0 ≡ true) (n : ℕ) (p : 0 < n) where
    -- The walk through a region that can be copied ends well, or not at all.
    loop_well :
        (rounds m a left : ℕ) (softs : List Error) (w : P.World) (s : S)
        → 0 < m
        → a + left ≡ r.size
        → (walk_region_loop P walk_fn rounds m a left softs w s ≡ out_of_fuel)
          ⊎ ((v : RegionWalk) × (w' : P.World) × (s' : S) × (walk_region_loop P walk_fn rounds m a
                  left softs w s
                ≡ done (v, w', s'))
              × (v.harderror ≡ none)
              × (v.keep_walking ≡ true))
    unfolding walk_region_loop copy_memory
    loop_well zero m a left softs w s q h = inl refl
    loop_well (suc rounds) m a left softs w s q h = elim (Bool-cases (ltb 0 left)) [
      | inr nothing_left ↦
          let v : RegionWalk = record {
            keep_walking = true;
            error_address = 0;
            harderror = none;
            softerrors = softs;
          } in
          inr (v, w, s, ground (arith, nothing_left), refl, refl)
      | inl some_left ↦
          let k = if ltb left m then left else m in
          let (c, w1, copied, fine) = z.copies a k w (ground arith) (ground (arith, h)) in
          let on = goes_on a c.buffer s in
          elim (loop_well rounds k (add64 a k) (left - k) (softs ++ c.softerrors) w1
            (walk_fn a c.buffer s).1 (ground arith) (ground (arith, h, z.small))) [
              | inl never ↦ inl (ground (arith, some_left, copied, fine, on, never))
              | inr (v, w', s', ends, good, more) ↦
                  inr (v, w', s', ground (arith, some_left, copied, fine, on, ends), good, more)
            ]
    ]

    turn_well :
        (retries : ℕ) (v : RegionWalk)
        → v.harderror ≡ none
        → v.keep_walking ≡ true
        → turn n retries v ≡ onward []
    unfolding turn
    turn_well zero v h k = ground arith
    turn_well (suc retries) v h k = ground arith

    walk_loop_forever :
        (fuel rounds retries : ℕ) (x : MemoryRegion) (softs : List Error) (w : P.World) (s : S)
        → AtEnd x
        → walk_loop P walk_fn fuel n rounds retries x softs w s ≡ out_of_fuel
    unfolding walk_loop walk_region
    walk_loop_forever fuel zero retries x softs w s (end, size) = refl
    walk_loop_forever fuel (suc rounds) retries x softs w s (end, size) =
        let some_region = is_no_region-pos x size in
        let here : limit x ≡ r.size = omega (arith, end, z.small) in
        elim (loop_well fuel n x.address x.size [] w s p end) [
          | inl never ↦ ground (arith, some_region, never)
          | inr (v, w1, s1, ends, good, more) ↦
              let on = turn_well retries v good more in
              elim (lookup_behind fuel w1) [
                | inl never ↦ ground (arith, some_region, ends, on, here, never)
                | inr looked ↦
                    let again =
                      walk_loop_forever fuel rounds max_retries grown
                        (((softs ++ v.softerrors) ++ []) ++ []) w1 s1 grown-AtEnd in
                    ground (arith, some_region, ends, on, here, looked, again)
              ]
        ]

    -- If the only region begins at address 0, has bytes, fewer than 2 ^ 64, and can be read, each
    -- copy of at least one byte inside it succeeds, and the callback goes on, `WalkMemory` with a
    -- buffer of at least one byte from an address inside the region does not end, whatever the
    -- fuel: behind the region `NextReadableMemoryRegion` returns it once more in place of
    -- `NoRegionAvailable`.
    pub walk_memory_forever :
        (fuel start : ℕ) (w : P.World) (s : S)
        → start < r.size
        → walk_memory P walk_fn fuel n start w s ≡ out_of_fuel
    unfolding walk_memory cut_before
    walk_memory_forever fuel start w s h = elim (lookup_in fuel start w h) [
      | inl never ↦ ground (arith, never)
      | inr looked ↦ elim (Bool-cases (ltb r.address start)) [
        | inr whole ↦
            ground
              (arith, looked, whole, walk_loop_forever fuel fuel max_retries r [] w s itself-AtEnd)
        | inl cut ↦
            let x : MemoryRegion = record r {
              address = start;
              size = sub64 r.size (start - r.address);
            } in
            let size : x.size ≡ r.size - start = omega (arith, z.at_zero, z.small) in
            let x-AtEnd : AtEnd x = (omega (arith, size, z.small), omega (arith, size)) in
            ground (
              arith,
              looked,
              cut,
              h,
              itself-limit,
              walk_loop_forever fuel fuel max_retries x [] w s x-AtEnd,
            )
      ]
    ]

-- ===== src/Memaccess/Walk/Ends.antt =====
-- When the walk through one region ends, over any platform.
use masche.Prelude.{
  ℕ, zero, suc, ◌-◌, ◌<◌, ◌≡◌, refl, true, false, List, [], ◌++◌, none, some, Bytes, ltb,
  if◌then◌else◌, arith, Bool-cases, Option-cases, inl, inr,
}
use masche.Go.{Error, Outcome, done, out_of_fuel, word, add64}
use masche.Memaccess.Region.{MemoryRegion, Copied}
use masche.Memaccess.Platform.{Platform}
use masche.Memaccess.Walk.{WalkFunc, RegionWalk, copy_memory, walk_region_loop, walk_region}

-- `CopyMemory` of the platform always returns, with an error or without one.
abbrev pub Copies : Platform → Type 0
Copies P =
    (a m : ℕ) (w : P.World) → (c : Copied) × (w' : P.World) × (P.copy_memory a m w ≡ done (c, w'))

abbrev pub Ends {ℓ} : {A : Type ℓ} → Outcome A → Type ℓ
Ends {A = A} o = (v : A) × (o ≡ done v)

-- The length of the next part.
abbrev part : ℕ → ℕ → ℕ
part n remaining = if ltb remaining n then remaining else n

module _ (P : Platform) {S : Type 0} (walk_fn : WalkFunc S) where
  module _ (rounds n addr remaining : ℕ) (softs : List Error) (w w' : P.World) (s : S) (c : Copied)
      (some_left : ltb 0 remaining ≡ true)
      (copies : P.copy_memory addr (part n remaining) w ≡ done (c, w')) where
    loop_fails :
        (x : Error)
        → c.harderror ≡ some x
        → Ends (walk_region_loop P walk_fn (suc rounds) n addr remaining softs w s)
    unfolding walk_region_loop copy_memory
    loop_fails x h =
        let v : RegionWalk = record {
          keep_walking = true;
          error_address = addr;
          harderror = some x;
          softerrors = softs ++ c.softerrors;
        } in
        ((v, w', s), ground (arith, copies))

    loop_stops :
        c.harderror ≡ none
        → (walk_fn addr c.buffer s).0 ≡ false
        → Ends (walk_region_loop P walk_fn (suc rounds) n addr remaining softs w s)
    unfolding walk_region_loop copy_memory
    loop_stops h k =
        let v : RegionWalk = record {
          keep_walking = false;
          error_address = 0;
          harderror = none;
          softerrors = softs ++ c.softerrors;
        } in
        ((v, w', (walk_fn addr c.buffer s).1), ground (arith, copies))

    pub loop_goes_on :
        c.harderror ≡ none
        → (walk_fn addr c.buffer s).0 ≡ true
        → walk_region_loop P walk_fn (suc rounds) n addr remaining softs w s
          ≡ walk_region_loop P walk_fn rounds
              (part n remaining)
              (add64 addr (part n remaining))
              (remaining - part n remaining)
              (softs ++ c.softerrors)
              w'
              (walk_fn addr c.buffer s).1
    unfolding walk_region_loop copy_memory
    loop_goes_on h k = ground (arith, copies)

  loop-Ends :
      Copies P
      → (rounds n addr remaining : ℕ) (softs : List Error) (w : P.World) (s : S) → 0 < n
      → remaining < rounds
      → Ends (walk_region_loop P walk_fn rounds n addr remaining softs w s)
  loop-Ends returns zero n addr remaining softs w s p h = absurd (omega arith)
  loop-Ends returns (suc rounds) n addr remaining softs w s p h =
      elim (Bool-cases (ltb 0 remaining)) [
        | inr nothing ↦
            let v : RegionWalk = record {
              keep_walking = true;
              error_address = 0;
              harderror = none;
              softerrors = softs;
            } in
            ((v, w, s), unfold walk_region_loop in ground arith)
        | inl some_left ↦
            let (c, w', copies) = returns addr (part n remaining) w in
            elim (Option-cases c.harderror) [
              | inr (x, e) ↦ loop_fails rounds n addr remaining softs w w' s c some_left copies x e
              | inl e ↦ elim (Bool-cases (walk_fn addr c.buffer s).0) [
                | inr off ↦ loop_stops rounds n addr remaining softs w w' s c some_left copies e off
                | inl on ↦
                    rw (loop_goes_on rounds n addr remaining softs w w' s c some_left copies e on) (
                      loop-Ends returns rounds (part n remaining) (add64 addr (part n remaining))
                        (remaining - part n remaining) (softs ++ c.softerrors) w'
                        (walk_fn addr c.buffer s).1 (ground arith) (ground arith))
              ]
            ]
      ]

  -- Over a platform whose `copyMemory` always returns, with an error or without one, the walk
  -- through a region with a buffer of at least one byte ends, within one round more than the region
  -- has bytes.
  pub walk_region-Ends :
      Copies P
      → (fuel buf_size : ℕ) (r : MemoryRegion) (w : P.World) (s : S) → 0 < buf_size
      → r.size < fuel
      → Ends (walk_region P walk_fn fuel buf_size r w s)
  unfolding walk_region
  walk_region-Ends returns fuel buf_size r w s p h =
      loop-Ends returns fuel buf_size r.address r.size [] w s p h

  module _ (goes_on : (a : ℕ) (b : Bytes) (s : S) → (walk_fn a b s).0 ≡ true) (addr : ℕ)
      (below : addr < word)
      (free : (w : P.World)
        → (c : Copied) × (w' : P.World) × (P.copy_memory addr 0 w ≡ done (c, w'))
          × (c.harderror ≡ none)) where
    loop_forever :
        (rounds remaining : ℕ) (softs : List Error) (w : P.World) (s : S)
        → 0 < remaining
        → walk_region_loop P walk_fn rounds 0 addr remaining softs w s ≡ out_of_fuel
    loop_forever zero remaining softs w s h = unfold walk_region_loop in refl
    loop_forever (suc rounds) remaining softs w s h =
        let (c, w', copies, fine) = free w in
        let none_read : part 0 remaining ≡ 0 = ground arith in
        let stays : remaining - 0 ≡ remaining = omega arith in
        let here : add64 addr 0 ≡ addr = omega (arith, below) in
        rw
          (
            loop_goes_on rounds 0 addr remaining softs w w' s c (ground arith) (rw none_read copies)
                fine (goes_on addr c.buffer s),
            none_read,
            stays,
            here,
          )
          (loop_forever rounds remaining (softs ++ c.softerrors) w' (walk_fn addr c.buffer s).1 h)

  -- With an empty buffer, where copies of no bytes at the region's address, which is below 2 ^ 64,
  -- succeed and the callback goes on, the walk through a region that has bytes does not end,
  -- whatever the fuel.
  pub walk_region_forever :
      (fuel : ℕ) (r : MemoryRegion) (w : P.World) (s : S)
      → ((a : ℕ) (b : Bytes) (s : S) → (walk_fn a b s).0 ≡ true)
      → r.address < word
      → ((w : P.World)
          → (c : Copied) × (w' : P.World) × (P.copy_memory r.address 0 w ≡ done (c, w'))
            × (c.harderror ≡ none))
      → 0 < r.size
      → walk_region P walk_fn fuel 0 r w s ≡ out_of_fuel
  unfolding walk_region
  walk_region_forever fuel r w s goes_on below free h =
      loop_forever goes_on r.address below free fuel r.size [] w s h

-- ===== src/Memaccess/Walk/Failing.antt =====
-- Where a walk through a region fails, and when it is tried again.
use masche.Prelude.{
  ℕ, zero, suc, ◌+◌, ◌-◌, ◌≤◌, ◌<◌, ◌≡◌, List, [], ◌++◌, some, ltb, if◌then◌else◌, arith,
  Bool-cases, Option-cases, inl, inr,
}
use masche.Go.{Error, word, add64}
use masche.Memaccess.Region.{MemoryRegion}
use masche.Memaccess.Platform.{Platform}
use masche.Memaccess.Image.{end_of}
use masche.Memaccess.Walk.{
  WalkFunc, RegionWalk, retry, turn, copy_memory, walk_region_loop, walk_region,
}
use masche.Memaccess.Walk.Keeps.{Holds, Holds-bind, Holds-all}

-- A walk through a region that fails does so at an address of the region.
abbrev pub FailsInside : ℕ → ℕ → RegionWalk → Type 0
FailsInside low high v =
    (x : Error) → v.harderror ≡ some x → (low ≤ v.error_address) × (v.error_address < high)

module _ (P : Platform) {S : Type 0} (walk_fn : WalkFunc S) where
  loop-FailsInside :
      (rounds n a left low high : ℕ) (softs : List Error) (w : P.World) (s : S)
      → low ≤ a
      → a + left ≤ high
      → high < word
      → Holds
          (λ (v : RegionWalk × P.World × S). FailsInside low high v.0)
          (walk_region_loop P walk_fn rounds n a left softs w s)
  unfolding walk_region_loop copy_memory
  loop-FailsInside zero n a left low high softs w s l h b = tt
  loop-FailsInside (suc rounds) n a left low high softs w s l h b =
      let m = if ltb left n then left else n in
      elim (Bool-cases (ltb 0 left)) [
        | inr e ↦ rw (e, Holds) (λ x k. absurd (cc))
        | inl e ↦
            rw (e, Holds)
              (Holds-bind _ _ (P.copy_memory a m w) _ (Holds-all (P.copy_memory a m w))
                (λ (c, w') k. elim (Option-cases c.harderror) [
                  | inr (x, f) ↦ rw f (λ y g. (l, ground arith))
                  | inl f ↦ elim (Bool-cases (walk_fn a c.buffer s).0) [
                    | inr g ↦ rw (f, g) (λ x t. absurd (cc))
                    | inl g ↦
                        rw (f, g)
                          (loop-FailsInside rounds m (add64 a m) (left - m) low high
                            (softs ++ c.softerrors) w' (walk_fn a c.buffer s).1 (ground arith)
                            (ground arith) b)
                  ]
                ]))
      ]

  pub walk_region-FailsInside :
      (fuel n : ℕ) (r : MemoryRegion) (w : P.World) (s : S)
      → end_of r < word
      → Holds
          (λ (v : RegionWalk × P.World × S). FailsInside r.address (end_of r) v.0)
          (walk_region P walk_fn fuel n r w s)
  unfolding walk_region
  walk_region-FailsInside fuel n r w s b =
      loop-FailsInside fuel n r.address r.size r.address (end_of r) [] w s (omega arith)
        (omega arith) b

pub turn_retries :
    (n retries addr left : ℕ) (v : RegionWalk)
    → turn n retries v ≡ retry addr left
    → (x : Error) × (v.harderror ≡ some x) × (v.error_address ≡ addr) × (retries ≡ suc left)
unfolding turn
turn_retries n zero addr left v h = elim (Option-cases v.harderror) [
  | inr (x, e) ↦ absurd (ground arith)
  | inl e ↦ absurd (ground arith)
]
turn_retries n (suc k) addr left v h = elim (Option-cases v.harderror) [
  | inr (x, e) ↦ (x, e, ground arith, ground arith)
  | inl e ↦ absurd (ground arith)
]

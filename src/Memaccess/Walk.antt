-- ===== src/Memaccess/Walk.antt =====
-- `CopyMemory`, `walkRegion` and `WalkMemory`.
pub mod Visits
pub mod Stable
pub mod Ends
pub mod Keeps
pub mod Failing
pub mod Fine
pub mod Total
pub mod Forever
pub mod Moving
pub mod Retries
use masche.Prelude.{
  ℕ, zero, suc, ◌-◌, Bool, true, false, Option, none, some, List, [], ◌∷◌, ◌++◌, Bytes, ltb, leb,
  if◌then◌else◌,
}
use masche.Go.{
  Error, Outcome, done, out_of_fuel, ◌>>=◌, add64, sub64, start_not_contained, retries_exceeded,
}
use masche.Memaccess.Region.{MemoryRegion, limit, is_no_region, Found, Copied}
use masche.Memaccess.Platform.{Platform}
use masche.Memaccess.Next.{next_readable_memory_region}

-- A `WalkFunc` and what it keeps in the variables that it captures.
abbrev pub WalkFunc : Type 0 → Type 0
WalkFunc S = ℕ → Bytes → S → Bool × S

-- The results `(keepWalking, errorAddress, harderror, softerrors)`.
pub record RegionWalk : Type 0 where
  pub keep_walking : Bool
  pub error_address : ℕ
  pub harderror : Option Error
  pub softerrors : List Error

-- The results `(harderror, softerrors)`.
pub record Reply : Type 0 where
  pub harderror : Option Error
  pub softerrors : List Error

abbrev pub max_retries : ℕ
max_retries = 5

-- The first region from `start` on: its part before `start` is cut off. `none` is the hard error.
unfoldable pub cut_before : ℕ → MemoryRegion → Option MemoryRegion
cut_before start r =
    if ltb r.address start
    then (if leb (limit r) start
        then none
        else some (record r { address = start; size = sub64 r.size (start - r.address) }))
    else some r

-- What follows a walk through a region: the end, or one more region. `retry` takes the region from
-- the address that failed, `onward` the one behind `r`.
pub data Turn : Type 0 where
  stop : Turn
  retry : ℕ → ℕ → Turn
  onward : List Error → Turn

unfoldable pub turn : ℕ → ℕ → RegionWalk → Turn
turn n zero v = elim v.harderror [
  | some e ↦ onward (retries_exceeded n v.error_address e ∷ [])
  | none ↦ if v.keep_walking then onward [] else stop
]
turn n (suc retries) v = elim v.harderror [
  | some e ↦ retry v.error_address retries
  | none ↦ if v.keep_walking then onward [] else stop
]

-- `if region.Address < addr { region.Address = addr }`: the size is left as it is.
unfoldable pub move_up : ℕ → MemoryRegion → MemoryRegion
move_up addr r = if ltb r.address addr then record r { address = addr } else r

module _ (P : Platform) where
  open P use {World}

  unfoldable pub copy_memory : ℕ → ℕ → World → Outcome (Copied × World)
  copy_memory address n w = P.copy_memory address n w

  module _ {S : Type 0} (walk_fn : WalkFunc S) where
    -- The loop of `walkRegion`: `n` is `len(buf)`, and the last buffer of a region is cut short.
    unfoldable pub walk_region_loop :
        ℕ → ℕ → ℕ → ℕ → List Error → World → S → Outcome (RegionWalk × World × S)
    unfolding copy_memory
    walk_region_loop zero n addr remaining softs w s = out_of_fuel
    walk_region_loop (suc rounds) n addr remaining softs w s = elim (ltb 0 remaining) [
      | false ↦
          let end : RegionWalk = record {
            keep_walking = true;
            error_address = 0;
            harderror = none;
            softerrors = softs;
          } in
          done (end, w, s)
      | true ↦
          let m = if ltb remaining n then remaining else n in
          copy_memory addr m w >>= λ (c, w').
          let softs' = softs ++ c.softerrors in
          elim c.harderror [
            | some e ↦
                let failed : RegionWalk = record {
                  keep_walking = true;
                  error_address = addr;
                  harderror = some e;
                  softerrors = softs';
                } in
                done (failed, w', s)
            | none ↦
                let (keep_walking, s') = walk_fn addr c.buffer s in
                elim keep_walking [
                  | false ↦
                      let stopped : RegionWalk = record {
                        keep_walking = false;
                        error_address = 0;
                        harderror = none;
                        softerrors = softs';
                      } in
                      done (stopped, w', s')
                  | true ↦ walk_region_loop rounds m (add64 addr m) (remaining - m) softs' w' s'
                ]
          ]
    ]

    module _ (fuel buf_size : ℕ) where
      unfoldable pub walk_region : MemoryRegion → World → S → Outcome (RegionWalk × World × S)
      walk_region r w s = walk_region_loop fuel buf_size r.address r.size [] w s

      -- The loop of `WalkMemory`, with the retries left and the soft errors so far.
      unfoldable pub walk_loop :
          ℕ → ℕ → MemoryRegion → List Error → World → S → Outcome (Reply × World × S)
      walk_loop zero retries r softs w s = out_of_fuel
      walk_loop (suc rounds) retries r softs w s = elim (is_no_region r) [
        | true ↦
            let end : Reply = record { harderror = none; softerrors = softs } in done (end, w, s)
        | false ↦ walk_region r w s >>= λ (v, w1, s1).
            let softs1 = softs ++ v.softerrors in
            elim (turn buf_size retries v) [
              | stop ↦
                  let end : Reply = record { harderror = none; softerrors = softs1 } in
                  done (end, w1, s1)
              | retry addr left ↦ next_readable_memory_region P fuel addr w1 >>= λ (found, w2).
                  let softs2 = softs1 ++ found.softerrors in
                  elim found.harderror [
                    | some e ↦
                        let failed : Reply = record { harderror = some e; softerrors = softs2 } in
                        done (failed, w2, s1)
                    | none ↦ walk_loop rounds left (move_up addr found.region) softs2 w2 s1
                  ]
              | onward more ↦ next_readable_memory_region P fuel (limit r) w1 >>= λ (found, w2).
                  let softs2 = (softs1 ++ more) ++ found.softerrors in
                  elim found.harderror [
                    | some e ↦
                        let failed : Reply = record { harderror = some e; softerrors = softs2 } in
                        done (failed, w2, s1)
                    | none ↦ walk_loop rounds max_retries found.region softs2 w2 s1
                  ]
            ]
      ]

      unfoldable pub walk_memory : ℕ → World → S → Outcome (Reply × World × S)
      walk_memory start w s = next_readable_memory_region P fuel start w >>= λ (found, w1).
          elim found.harderror [
            | some e ↦
                let failed : Reply = record { harderror = some e; softerrors = found.softerrors } in
                done (failed, w1, s)
            | none ↦ elim (cut_before start found.region) [
              | none ↦
                  let failed : Reply = record {
                    harderror = some start_not_contained;
                    softerrors = found.softerrors;
                  } in
                  done (failed, w1, s)
              | some r ↦ walk_loop fuel max_retries r found.softerrors w1 s
            ]
          ]

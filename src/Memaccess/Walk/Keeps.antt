-- ===== src/Memaccess/Walk/Keeps.antt =====
-- What the lookups, the walk and the search keep of the world, whatever the platform answers.
use masche.Prelude.{
  ℕ, zero, suc, ◌-◌, ◌≡◌, ◌⊎◌, refl, ◌||◌, List, [], ◌++◌, ltb, if◌then◌else◌, Bool-cases,
  Option-cases, inl, inr,
}
use masche.Go.{Error, Outcome, done, panic, out_of_fuel, ◌>>=◌, add64}
use masche.Memaccess.Region.{
  MemoryRegion, Access, readable, allows, limit, is_no_region, Found, Copied,
}
use masche.Memaccess.Platform.{Platform}
use masche.Memaccess.Next.{
  is_error, next_memory_region, next_memory_region_access, extend, next_readable_memory_region,
}
use masche.Memaccess.Walk.{
  WalkFunc, RegionWalk, Turn, stop, retry, onward, turn, move_up, cut_before, max_retries,
  copy_memory, walk_region_loop, walk_region, walk_loop, walk_memory, Reply,
}

-- A panic and a lack of fuel hold anything.
abbrev pub Holds {ℓ κ} : {A : Type ℓ} → (A → Type κ) → Outcome A → Type κ
Holds Q (done a) = Q a
Holds Q panic = Unit
Holds Q out_of_fuel = Unit

pub Holds-all {ℓ} : {A : Type ℓ} (o : Outcome A) → Holds (λ (a : A). Unit {0}) o
Holds-all (done a) = tt
Holds-all panic = tt
Holds-all out_of_fuel = tt

pub Holds-bind {ℓ κ μ ν} :
    {A : Type ℓ} {B : Type κ} (Q : A → Type μ) (R : B → Type ν) (o : Outcome A) (f : A → Outcome B)
    → Holds Q o
    → ((a : A) → Q a → Holds R (f a))
    → Holds R (o >>= f)
Holds-bind Q R (done a) f h k = k a h
Holds-bind Q R panic f h k = tt
Holds-bind Q R out_of_fuel f h k = tt

pub Turn-cases :
    (t : Turn)
    → (t ≡ stop)
      ⊎ ((addr : ℕ) × (left : ℕ) × (t ≡ retry addr left))
      ⊎ ((more : List Error) × (t ≡ onward more))
Turn-cases stop = inl refl
Turn-cases (retry addr left) = inr (inl (addr, left, refl))
Turn-cases (onward more) = inr (inr (more, refl))

-- A property of the world that the two functions of the platform keep.
pub record Keeps (P : Platform) (I : P.World → Type 0) : Type 0 where
  pub next :
      (a : ℕ) (w : P.World)
      → I w
      → Holds (λ (v : Found × P.World). I v.1) (P.next_memory_region a w)
  pub copy :
      (a n : ℕ) (w : P.World) → I w → Holds (λ (v : Copied × P.World). I v.1) (P.copy_memory a n w)

module _ {P : Platform} {I : P.World → Type 0} (keeps : Keeps P I) where
  open P use {World}

  access_keeps :
      (rounds a : ℕ) (access : Access) (w : World)
      → I w
      → Holds (λ (v : Found × World). I v.1) (next_memory_region_access P rounds a access w)
  unfolding next_memory_region_access next_memory_region
  access_keeps zero a access w h = tt
  access_keeps (suc rounds) a access w h =
      Holds-bind _ _ (P.next_memory_region a w) _ (keeps.next a w h) (λ (r, w') k.
        elim (Bool-cases (is_error r.harderror || is_no_region r.region)) [
          | inl e ↦ rw e k
          | inr e ↦ elim (Bool-cases (allows r.region.access access)) [
            | inl f ↦ rw (e, f) k
            | inr f ↦ rw (e, f) (access_keeps rounds (limit r.region) access w' k)
          ]
        ])

  module _ (fuel : ℕ) where
    extend_keeps :
        (rounds : ℕ) (r : MemoryRegion) (w : World)
        → I w
        → Holds (λ (v : MemoryRegion × World). I v.1) (extend P fuel rounds r w)
    unfolding extend
    extend_keeps zero r w h = tt
    extend_keeps (suc rounds) r w h =
        Holds-bind _ _ (next_memory_region_access P fuel (limit r) readable w) _
          (access_keeps fuel (limit r) readable w h)
          (λ (r2, w') k.
            elim (Bool-cases (
              is_error r2.harderror
              || (is_no_region r2.region || ltb (limit r) r2.region.address))) [
                | inl e ↦ rw e k
                | inr e ↦
                    rw e
                      (extend_keeps rounds (record r { size = add64 r.size r2.region.size }) w' k)
              ])

    pub next_readable_keeps :
        (a : ℕ) (w : World)
        → I w
        → Holds (λ (v : Found × World). I v.1) (next_readable_memory_region P fuel a w)
    unfolding next_readable_memory_region
    next_readable_keeps a w h =
        Holds-bind _ _ (next_memory_region_access P fuel a readable w) _
          (access_keeps fuel a readable w h)
          (λ (r, w') k.
            Holds-bind _ _ (extend P fuel fuel r.region w') _ (extend_keeps fuel r.region w' k)
              (λ (r1, w2) k2. k2))

  module _ {S : Type 0} (walk_fn : WalkFunc S) where
    region_keeps :
        (rounds n addr remaining : ℕ) (softs : List Error) (w : World) (s : S)
        → I w
        → Holds
            (λ (v : RegionWalk × World × S). I v.1)
            (walk_region_loop P walk_fn rounds n addr remaining softs w s)
    unfolding walk_region_loop copy_memory
    region_keeps zero n addr remaining softs w s h = tt
    region_keeps (suc rounds) n addr remaining softs w s h =
        let m = if ltb remaining n then remaining else n in
        elim (Bool-cases (ltb 0 remaining)) [
          | inr e ↦ rw (e, Holds) h
          | inl e ↦
              rw (e, Holds)
                (Holds-bind _ _ (P.copy_memory addr m w) _ (keeps.copy addr m w h) (λ (c, w') k.
                  elim (Option-cases c.harderror) [
                    | inr (x, f) ↦ rw f k
                    | inl f ↦ elim (Bool-cases (walk_fn addr c.buffer s).0) [
                      | inr g ↦ rw (f, g) k
                      | inl g ↦
                          rw (f, g)
                            (region_keeps rounds m (add64 addr m) (remaining - m)
                              (softs ++ c.softerrors) w' (walk_fn addr c.buffer s).1 k)
                    ]
                  ]))
        ]

    module _ (fuel n : ℕ) where
      loop_keeps :
          (rounds retries : ℕ) (r : MemoryRegion) (softs : List Error) (w : World) (s : S)
          → I w
          → Holds
              (λ (v : Reply × World × S). I v.1)
              (walk_loop P walk_fn fuel n rounds retries r softs w s)
      unfolding walk_loop walk_region
      loop_keeps zero retries r softs w s h = tt
      loop_keeps (suc rounds) retries r softs w s h = elim (Bool-cases (is_no_region r)) [
        | inl e ↦ rw (e, Holds) h
        | inr e ↦
            rw (e, Holds)
              (Holds-bind _ _ (walk_region P walk_fn fuel n r w s) _
                (region_keeps fuel n r.address r.size [] w s h)
                (λ (v, w1, s1) k. elim (Turn-cases (turn n retries v)) [
                  | inl stops ↦ rw stops k
                  | inr (inl (addr, left, again)) ↦ rw again (
                      Holds-bind _ _ (next_readable_memory_region P fuel addr w1) _
                        (next_readable_keeps fuel addr w1 k)
                        (λ (found, w2) k2. elim (Option-cases found.harderror) [
                          | inr (x, f) ↦ rw f k2
                          | inl f ↦ rw f (
                              loop_keeps rounds left (move_up addr found.region)
                                ((softs ++ v.softerrors) ++ found.softerrors) w2 s1 k2)
                        ]))
                  | inr (inr (more, on)) ↦ rw on (
                      Holds-bind _ _ (next_readable_memory_region P fuel (limit r) w1) _
                        (next_readable_keeps fuel (limit r) w1 k)
                        (λ (found, w2) k2. elim (Option-cases found.harderror) [
                          | inr (x, f) ↦ rw f k2
                          | inl f ↦ rw f (
                              loop_keeps rounds max_retries found.region
                                (((softs ++ v.softerrors) ++ more) ++ found.softerrors) w2 s1 k2)
                        ]))
                ]))
      ]

      pub walk_memory_keeps :
          (start : ℕ) (w : World) (s : S)
          → I w
          → Holds (λ (v : Reply × World × S). I v.1) (walk_memory P walk_fn fuel n start w s)
      unfolding walk_memory
      walk_memory_keeps start w s h =
          Holds-bind _ _ (next_readable_memory_region P fuel start w) _
            (next_readable_keeps fuel start w h)
            (λ (found, w1) k. elim (Option-cases found.harderror) [
              | inr (x, f) ↦ rw f k
              | inl f ↦ elim (Option-cases (cut_before start found.region)) [
                | inl g ↦ rw (f, g) k
                | inr (r, g) ↦ rw (f, g) (loop_keeps fuel max_retries r found.softerrors w1 s k)
              ]
            ])

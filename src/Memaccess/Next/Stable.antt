-- ===== src/Memaccess/Next/Stable.antt =====
-- What the three functions return for a process whose memory does not change.
use masche.Prelude.{
  ℕ, zero, suc, ◌+◌, ◌<◌, ◌≡◌, refl, inl, inr, List, [], ◌∷◌, ◌==◌, arith, length, Bool-cases,
  List-cases, ap, ◌∙◌, sym,
}
use masche.Go.{done, word, add64}
use masche.Memaccess.Region.{Access, readable, MemoryRegion, limit, no_region_available}
use masche.Memaccess.Platform.{Platform}
use masche.Memaccess.Image.{end_of, IsLayout, after, first, find, attach, runs, found, Lists}
use masche.Memaccess.Image.Layout.{
  is_no_region-pos, is_no_region-none, after-IsLayout, after-next, length-after, after-after,
}
use masche.Memaccess.Image.Runs.{
  FirstReadable, FirstReadable-cases, attach-attach, first-attach-attach, attach-head, attach-nil,
}
use masche.Memaccess.Next.{
  next_memory_region, next_memory_region_access, extend, next_readable_memory_region,
}

pub limit-eq : (r : MemoryRegion) → end_of r < word → limit r ≡ end_of r
limit-eq r h = omega arith

module _ {P : Platform} {regions : List MemoryRegion} (st : Lists P regions) where
  -- The same for a list that `after` has left.
  access_step :
      (rest : List MemoryRegion) (rounds a : ℕ) (access : Access) (w : P.World)
      → after a regions ≡ rest
      → length rest < rounds
      → next_memory_region_access P rounds a access w ≡ done (found (find access rest), w)
  unfolding next_memory_region_access next_memory_region find first
  access_step rest zero a access w e h = absurd (omega arith)
  access_step [] (suc rounds) a access w e h = ground (arith, st.next a w, is_no_region-none)
  access_step (r ∷ rest) (suc rounds) a access w e h =
      let l : IsLayout 1 (r ∷ rest) = rw e at (after-IsLayout regions a 1 st.layout) in
      let n = after-next regions a 1 r rest st.layout e in
      let same : limit r ≡ end_of r = limit-eq r l.2 in
      let ih = access_step rest rounds (limit r) access w (rw same n.0) (omega arith) in
      ground (arith, st.next a w, is_no_region-pos r l.1, ih)

  -- Over memory that does not change, with more rounds than there are regions,
  -- `NextMemoryRegionAccess` returns the first region that does not end at or before the address
  -- and has the access, or `NoRegionAvailable`, and no error.
  pub next_memory_region_access_lem :
      (rounds a : ℕ) (access : Access) (w : P.World)
      → length regions < rounds
      → next_memory_region_access P rounds a access w
        ≡ done (found (find access (after a regions)), w)
  next_memory_region_access_lem rounds a access w h =
      access_step (after a regions) rounds a access w refl (omega (arith, length-after regions a))

  past : (a : ℕ) (f : FirstReadable 1 (after a regions)) → a < end_of f.region
  past a f = elim (List-cases (after a regions)) [
    | inl e ↦ absurd (omega (arith, f.fewer, ap (λ (l : List MemoryRegion). length l) e))
    | inr (r, rest, e) ↦
        omega (arith, f.not_before r rest e, (after-next regions a 1 r rest st.layout e).1)
  ]

  -- The first run ends behind the address.
  pub run_past :
      (a : ℕ) (r : MemoryRegion) (rest : List MemoryRegion)
      → runs (after a regions) ≡ r ∷ rest
      → a < end_of r
  run_past a r rest e =
      elim (FirstReadable-cases (after a regions) 1 (after-IsLayout regions a 1 st.layout)) [
        | inl (no_more, no_runs) ↦ absurd (cc)
        | inr f ↦
            omega
              (arith, past a f, (attach-head f.region (runs f.others) r rest (sym f.is_run ∙ e)).1)
      ]

  module _ (fuel : ℕ) (enough : length regions < fuel) where
    readable_at :
        (a : ℕ) (rest : List MemoryRegion) (w : P.World)
        → after a regions ≡ rest
        → next_memory_region_access P fuel a readable w ≡ done (found (find readable rest), w)
    readable_at a rest w e = rw (← e) (next_memory_region_access_lem fuel a readable w enough)

    follow :
        (r1 : MemoryRegion) (rest : List MemoryRegion)
        → after (end_of r1) regions ≡ rest
        → (f : FirstReadable (end_of r1) rest) → after (end_of f.region) regions ≡ f.others
    follow r1 rest e f =
        sym (after-after regions (end_of r1) (end_of f.region) (omega (arith, f.above)))
        ∙ rw e f.follow

    -- The loop takes in all that belongs to the run that `r1` begins.
    extend_lem :
        (rounds : ℕ) (r1 : MemoryRegion) (rest : List MemoryRegion) (w : P.World)
        → length rest < rounds
        → end_of r1 < word
        → after (end_of r1) regions ≡ rest
        → IsLayout (end_of r1) rest
        → extend P fuel rounds r1 w ≡ done (first (attach r1 (runs rest)), w)
    unfolding extend first
    extend_lem zero r1 rest w h b e l = absurd (omega arith)
    extend_lem (suc rounds) r1 rest w h b e l = elim (FirstReadable-cases rest (end_of r1) l) [
      | inl (no_more, no_runs) ↦ rw no_runs (
          ground (
            arith,
            limit-eq r1 b,
            readable_at (end_of r1) rest w e,
            is_no_region-none,
            attach-nil r1,
          ))
      | inr f ↦ rw f.is_run (elim (Bool-cases (f.region.address == end_of r1)) [
        | inl d ↦
            let joined : MemoryRegion = record r1 { size = r1.size + f.region.size } in
            let meets : f.region.address ≡ end_of r1 = ground arith in
            let same : end_of joined ≡ end_of f.region = omega arith in
            let ih =
              extend_lem rounds joined f.others w (omega (arith, f.fewer)) (omega (arith, f.below))
                (rw same (follow r1 rest e f)) (rw same f.follow_layout) in
            let sums : add64 r1.size f.region.size ≡ r1.size + f.region.size =
              omega (arith, f.below) in
            rw (attach-attach r1 f.region (runs f.others) meets) (
              ground (
                arith,
                limit-eq r1 b,
                readable_at (end_of r1) rest w e,
                f.is_found,
                is_no_region-pos f.region f.has_bytes,
                sums,
                ih,
              ))
        | inr d ↦ rw (first-attach-attach r1 f.region (runs f.others) d) (
            ground (
              arith,
              limit-eq r1 b,
              readable_at (end_of r1) rest w e,
              f.is_found,
              is_no_region-pos f.region f.has_bytes,
              f.above,
            ))
      ])
    ]

    -- No region stands at address 0, so `NoRegionAvailable` does not grow.
    nothing_at_zero :
        (rounds : ℕ) (w : P.World)
        → 0 < rounds
        → extend P fuel rounds no_region_available w ≡ done (no_region_available, w)
    unfolding extend
    nothing_at_zero zero w h = absurd (omega arith)
    nothing_at_zero (suc rounds) w h =
        elim (FirstReadable-cases (after 0 regions) 1 (after-IsLayout regions 0 1 st.layout)) [
          | inl (no_more, no_runs) ↦
              ground (arith, readable_at 0 (after 0 regions) w refl, is_no_region-none)
          | inr f ↦ ground (
            arith,
            readable_at 0 (after 0 regions) w refl,
            f.is_found,
            f.above,
            is_no_region-pos f.region f.has_bytes,
          )
        ]

    -- Over memory that does not change, `NextReadableMemoryRegion` returns the first maximal run of
    -- readable memory among the regions that do not end at or before the address, or
    -- `NoRegionAvailable`, and no error. The fuel is enough if it is above the number of regions.
    pub next_readable_memory_region_lem :
        (a : ℕ) (w : P.World)
        → next_readable_memory_region P fuel a w ≡ done (found (first (runs (after a regions))), w)
    unfolding next_readable_memory_region first
    next_readable_memory_region_lem a w =
        elim (FirstReadable-cases (after a regions) 1 (after-IsLayout regions a 1 st.layout)) [
          | inl (no_more, no_runs) ↦ rw no_runs (
              ground (
                arith,
                readable_at a (after a regions) w refl,
                nothing_at_zero fuel w (omega arith),
              ))
          | inr f ↦
              let follows : after (end_of f.region) regions ≡ f.others =
                sym (after-after regions a (end_of f.region) (omega (arith, past a f)))
                ∙ f.follow in
              let grown =
                extend_lem fuel f.region f.others w (omega (arith, f.fewer, length-after regions a))
                  f.below follows f.follow_layout in
              rw f.is_run
                (ground (arith, readable_at a (after a regions) w refl, f.is_found, grown))
        ]

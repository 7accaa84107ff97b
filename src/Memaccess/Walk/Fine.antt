-- ===== src/Memaccess/Walk/Fine.antt =====
-- What `WalkMemory` has before a pass, over memory of which not all can be copied.
use masche.Prelude.{
  ℕ, ◌+◌, ◌-◌, ◌*◌, ◌≤◌, ◌<◌, ◌≡◌, refl, true, List, [], ◌∷◌, none, some, ltb, length, All, arith,
  Bool-cases, List-cases, inl, inr, ◌⊎◌,
}
use masche.Go.{word, sub64}
use masche.Memaccess.Region.{MemoryRegion, no_region_available, is_no_region}
use masche.Memaccess.Platform.{Platform}
use masche.Memaccess.Image.{end_of, IsLayout, Lists, after, first, runs}
use masche.Memaccess.Image.Layout.{is_no_region-none, after-IsLayout, after-after}
use masche.Memaccess.Image.Runs.{IsLayout-runs, runs-after}
use masche.Memaccess.Image.Rank.{rank, rank-le, runs_at, runs-after-Low}
use masche.Memaccess.Next.Stable.{run_past}
use masche.Memaccess.Walk.{move_up, cut_before}

module _ {P : Platform} {regions : List MemoryRegion} (st : Lists P regions) (top : ℕ)
    (low : All (λ (r : MemoryRegion). end_of r ≤ top) regions) (small : top + top < word) (fuel : ℕ)
    (above : top < fuel) (enough : 6 * length regions + 8 < fuel) where
  -- What the walk has before a pass: nothing, an empty region behind the last run, or a part of the
  -- first of at most `k` runs.
  pub data Fine (k : ℕ) (r : MemoryRegion) : Type 0 where
    nothing : is_no_region r ≡ true → Fine k r
    empty :
        r.size ≡ 0
        → 0 < r.address
        → r.address < word
        → runs (after r.address regions) ≡ []
        → Fine k r
    inside :
        (t : MemoryRegion) (rest : List MemoryRegion)
        → runs (after r.address regions) ≡ t ∷ rest
        → length rest < k
        → end_of t ≤ end_of r
        → end_of r < word
        → r.size < fuel
        → 0 < r.size
        → Fine k r

  record FirstRun (a : ℕ) (t : MemoryRegion) : Type 0 where
    ahead : a < end_of t
    bounded : end_of t ≤ top
    has_bytes : 0 < t.size

  first_run :
      (a : ℕ) (t : MemoryRegion) (rest : List MemoryRegion)
      → runs (after a regions) ≡ t ∷ rest
      → FirstRun a t
  first_run a t rest e =
      let l : IsLayout 1 (t ∷ rest) =
        rw e at (IsLayout-runs (after a regions) 1 (after-IsLayout regions a 1 st.layout)) in
      record {
        ahead = run_past st a t rest e;
        bounded = (rw e at (runs-after-Low top regions a low)).0;
        has_bytes = l.1;
      }

  pub behind_first :
      (a b : ℕ) (t : MemoryRegion) (rest : List MemoryRegion)
      → runs (after a regions) ≡ t ∷ rest
      → end_of t ≤ b
      → rank regions b ≤ length rest
  behind_first a b t rest e h =
      let f = first_run a t rest e in
      let others : runs (after (end_of t) regions) ≡ rest =
        rw (← after-after regions a (end_of t) (omega (arith, f.ahead)))
          (runs-after (after a regions) 1 t rest (after-IsLayout regions a 1 st.layout) e) in
      rw others at (rank-le regions (end_of t) b h)

  -- The first region, without what it has before the start.
  pub cut_before-Fine :
      (start : ℕ)
      → (cut_before start (first (runs (after start regions))) ≡ none)
        ⊎ ((r : MemoryRegion) × (cut_before start (first (runs (after start regions))) ≡ some r)
            × Fine (rank regions start) r)
  unfolding cut_before first
  cut_before-Fine start = elim (List-cases (runs (after start regions))) [
    | inl e ↦ elim (Bool-cases (ltb 0 start)) [
      | inl p ↦ inl (ground (arith, e))
      | inr p ↦ inr (no_region_available, ground (arith, e), nothing is_no_region-none)
    ]
    | inr (t, rest, e) ↦
        let f = first_run start t rest e in
        elim (Bool-cases (ltb t.address start)) [
          | inl p ↦
              let r : MemoryRegion = record t {
                address = start;
                size = sub64 t.size (start - t.address);
              } in
              inr (
                r,
                ground (arith, e, f.ahead, f.bounded),
                rw e (
                    inside t rest e (omega arith) (ground (arith, f.ahead, f.bounded))
                      (ground (arith, f.ahead, f.bounded)) (ground (arith, f.ahead, f.bounded))
                      (ground (arith, f.ahead, f.bounded))),
              )
          | inr p ↦ inr (
            t,
            ground (arith, e),
            rw e (
                inside t rest (runs_at regions 1 start t rest st.layout e) (omega arith)
                  (omega arith) (omega (arith, f.bounded)) (omega (arith, f.bounded)) f.has_bytes),
          )
        ]
  ]

  -- What a lookup finds.
  pub found-Fine : (a : ℕ) → Fine (rank regions a) (first (runs (after a regions)))
  unfolding first
  found-Fine a = elim (List-cases (runs (after a regions))) [
    | inl e ↦ rw e (nothing is_no_region-none)
    | inr (t, rest, e) ↦
        let f = first_run a t rest e in
        rw e (
          inside t rest (runs_at regions 1 a t rest st.layout e) (omega arith) (omega arith)
            (omega (arith, f.bounded)) (omega (arith, f.bounded)) f.has_bytes)
  ]

  -- The same where the region is moved up to the address.
  pub move_up-Fine :
      (a : ℕ) → a < word → Fine (rank regions a) (move_up a (first (runs (after a regions))))
  unfolding move_up first
  move_up-Fine a b = elim (List-cases (runs (after a regions))) [
    | inl e ↦ elim (Bool-cases (ltb 0 a)) [
      | inl p ↦ rw (e, p) (empty refl (ground arith) b e)
      | inr p ↦ rw (e, p) (nothing is_no_region-none)
    ]
    | inr (t, rest, e) ↦
        let f = first_run a t rest e in
        elim (Bool-cases (ltb t.address a)) [
          | inl p ↦
              rw (e, p)
                (inside t rest e (omega arith) (ground arith) (omega (arith, f.ahead, f.bounded))
                  (omega (arith, f.bounded)) f.has_bytes)
          | inr p ↦
              rw (e, p)
                (inside t rest (runs_at regions 1 a t rest st.layout e) (omega arith) (omega arith)
                  (omega (arith, f.bounded)) (omega (arith, f.bounded)) f.has_bytes)
        ]
  ]

-- ===== src/Memaccess/Walk/Stable.antt =====
-- What `walkRegion` and `WalkMemory` do to a process whose memory does not change.
use masche.Prelude.{
  ℕ, zero, suc, ◌+◌, ◌-◌, ◌≤◌, ◌<◌, ◌≡◌, refl, inl, inr, Bool, true, false, List, [], ◌∷◌,
  append-nil, ltb, if◌then◌else◌, arith, length, All, Bool-cases, List-cases, ap, none, some,
  Option,
}
use masche.Go.{Error, done, word, add64, start_not_contained}
use masche.Memaccess.Region.{MemoryRegion, limit, no_region_available}
use masche.Memaccess.Platform.{Platform}
use masche.Memaccess.Image.{
  end_of, IsLayout, after, first, runs, found, IsStable, Covers, HoldsAt, read,
}
use masche.Memaccess.Image.Layout.{
  is_no_region-pos, is_no_region-none, after-IsLayout, after-after, length-after,
}
use masche.Memaccess.Image.Runs.{
  IsLayout-runs, runs-after, runs-Covers, All-Covers-after, length-runs,
}
use masche.Memaccess.Next.{next_readable_memory_region}
use masche.Memaccess.Next.Stable.{limit-eq, next_readable_memory_region_lem, run_past}
use masche.Memaccess.Walk.{
  WalkFunc, RegionWalk, Reply, max_retries, cut_before, turn, stop, onward, walk_region_loop,
  walk_region, walk_loop, walk_memory,
}
use masche.Memaccess.Walk.Visits.{
  pieces, pieces-none, visits, cut, readable_from, feed, feed-append-true, feed-append-false,
  cut_lem,
}

abbrev pub walked : Bool → List Error → RegionWalk
walked more softs = record {
  keep_walking = more;
  error_address = 0;
  harderror = none;
  softerrors = softs;
}

abbrev pub reply : Option Error → Reply
reply e = record { harderror = e; softerrors = [] }

-- The hard error of a walk through these runs.
abbrev pub walk_error : ℕ → List MemoryRegion → Option Error
walk_error start [] = if ltb 0 start then some start_not_contained else none
walk_error start (r ∷ rs) = none

module _ {P : Platform} {regions : List MemoryRegion} {memory : ℕ → ℕ}
    (st : IsStable P regions memory) {S : Type 0} (walk_fn : WalkFunc S) where
  region_end :
      (rounds n a : ℕ) (softs : List Error) (w : P.World) (s : S)
      → 0 < rounds
      → walk_region_loop P walk_fn rounds n a 0 softs w s ≡ done (walked true softs, w, s)
  unfolding walk_region_loop
  region_end zero n a softs w s h = absurd (omega arith)
  region_end (suc rounds) n a softs w s h = refl

  -- The loop shows its callback the pieces of a readable range, up to the first refusal.
  walk_region_loop_lem :
      (rounds k n a remaining : ℕ) (softs : List Error) (w : P.World) (s : S)
      → 0 < n
      → remaining < rounds
      → remaining ≤ k
      → a + remaining < word
      → ((x : ℕ) → a ≤ x → x < a + remaining → HoldsAt regions x)
      → walk_region_loop P walk_fn rounds n a remaining softs w s
        ≡ done (
          walked (feed memory walk_fn (pieces k n a remaining) s).0 softs,
          w,
          (feed memory walk_fn (pieces k n a remaining) s).1,
        )
  unfolding walk_region_loop pieces feed
  walk_region_loop_lem zero k n a remaining softs w s p h q b c = absurd (omega arith)
  walk_region_loop_lem (suc rounds) zero n a remaining softs w s p h q b c = ground arith
  walk_region_loop_lem (suc rounds) (suc k) n a remaining softs w s p h q b c =
      elim (Bool-cases (ltb 0 remaining)) [
        | inr e ↦ ground arith
        | inl e ↦ elim (Bool-cases (ltb remaining n)) [
          | inl short ↦ ground (
            arith,
            st.copy a remaining w (ground arith) c,
            append-nil softs,
            pieces-none k n (a + remaining),
            region_end rounds remaining (add64 a remaining) softs w
                (walk_fn a (read memory a remaining) s).1,
          )
          | inr long ↦
              let sums : add64 a n ≡ a + n = ground arith in
              let s' = (walk_fn a (read memory a n) s).1 in
              ground (
                arith,
                st.copy a n w p (λ x l u. c x l (ground arith)),
                append-nil softs,
                sums,
                walk_region_loop_lem rounds k n (a + n) (remaining - n) softs w s' p (ground arith)
                    (ground arith) (ground arith) (λ x l u. c x (omega arith) (ground arith)),
              )
        ]
      ]

  turn_stop : (n retries : ℕ) → turn n retries (walked false []) ≡ stop
  unfolding turn
  turn_stop n zero = refl
  turn_stop n (suc k) = refl

  turn_onward : (n retries : ℕ) → turn n retries (walked true []) ≡ onward []
  unfolding turn
  turn_onward n zero = refl
  turn_onward n (suc k) = refl

  module _ (fuel n : ℕ) (p : 0 < n) (enough : length regions + 1 < fuel) where
    walk_region_lem :
        (r : MemoryRegion) (w : P.World) (s : S)
        → r.size < fuel
        → end_of r < word
        → Covers regions r
        → let shown = feed memory walk_fn (pieces r.size n r.address r.size) s in
          walk_region P walk_fn fuel n r w s ≡ done (walked shown.0 [], w, shown.1)
    unfolding walk_region
    walk_region_lem r w s f b c =
        walk_region_loop_lem fuel r.size n r.address r.size [] w s p f (omega arith) b c

    walk_loop-none :
        (rounds retries : ℕ) (w : P.World) (s : S)
        → 0 < rounds
        → walk_loop P walk_fn fuel n rounds retries no_region_available [] w s
          ≡ done (reply none, w, s)
    unfolding walk_loop
    walk_loop-none zero retries w s h = absurd (omega arith)
    walk_loop-none (suc rounds) retries w s h = ground (arith, is_no_region-none)

    -- Where a walk goes on behind a region.
    onward_lem :
        (r : MemoryRegion) (rest : List MemoryRegion) (w : P.World)
        → end_of r < word
        → runs (after (end_of r) regions) ≡ rest
        → next_readable_memory_region P fuel (limit r) w ≡ done (found (first rest), w)
    onward_lem r rest w b e =
        rw (limit-eq r b, ← e)
          (next_readable_memory_region_lem st.lists fuel (omega arith) (end_of r) w)

    -- From a run on, the walk goes through it and the runs behind it.
    walk_loop_lem :
        (rounds retries : ℕ) (r : MemoryRegion) (rest : List MemoryRegion) (w : P.World) (s : S)
        → length rest + 1 < rounds
        → 0 < r.size
        → end_of r < word
        → Covers regions r
        → All (Covers regions) rest
        → All (λ (t : MemoryRegion). t.size < fuel) (r ∷ rest)
        → runs (after (end_of r) regions) ≡ rest
        → walk_loop P walk_fn fuel n rounds retries r [] w s
          ≡ done (reply none, w, (feed memory walk_fn (visits n (r ∷ rest)) s).1)
    unfolding walk_loop visits first
    walk_loop_lem zero retries r rest w s h q b c cs fs e = absurd (omega arith)
    walk_loop_lem (suc rounds) retries r [] w s h q b c cs (f, fs) e =
        let here = pieces r.size n r.address r.size in
        elim (Bool-cases (feed memory walk_fn here s).0) [
          | inr refused ↦ ground (
            arith,
            is_no_region-pos r q,
            walk_region_lem r w s f b c,
            turn_stop n retries,
            append-nil here,
          )
          | inl more ↦ ground (
            arith,
            is_no_region-pos r q,
            walk_region_lem r w s f b c,
            turn_onward n retries,
            append-nil here,
            onward_lem r [] w b e,
            walk_loop-none rounds max_retries w (feed memory walk_fn here s).1,
          )
        ]
    walk_loop_lem (suc rounds) retries r (r' ∷ rest) w s h q b c (c', cs) (f, fs) e =
        let here = pieces r.size n r.address r.size in
        elim (Bool-cases (feed memory walk_fn here s).0) [
          | inr refused ↦ ground (
            arith,
            is_no_region-pos r q,
            walk_region_lem r w s f b c,
            turn_stop n retries,
            feed-append-false memory walk_fn here (visits n (r' ∷ rest)) s refused,
          )
          | inl more ↦
              let l : IsLayout 1 (r' ∷ rest) = rw e at (
                IsLayout-runs (after (end_of r) regions) 1
                  (after-IsLayout regions (end_of r) 1 st.lists.layout)) in
              let e' =
                runs-after (after (end_of r) regions) 1 r' rest
                  (after-IsLayout regions (end_of r) 1 st.lists.layout) e in
              let past = run_past st.lists (end_of r) r' rest e in
              let e'' : runs (after (end_of r') regions) ≡ rest =
                rw (← after-after regions (end_of r) (end_of r') (omega arith)) e' in
              ground (
                arith,
                is_no_region-pos r q,
                walk_region_lem r w s f b c,
                turn_onward n retries,
                feed-append-true memory walk_fn here (visits n (r' ∷ rest)) s more,
                onward_lem r (r' ∷ rest) w b e,
                walk_loop_lem rounds max_retries r' rest w (feed memory walk_fn here s).1
                    (omega arith) l.1 l.2 c' cs fs e'',
              )
        ]

    -- The walk from the first run on, without what it has before the start.
    from_run :
        (start : ℕ) (r : MemoryRegion) (rest : List MemoryRegion) (w : P.World) (s : S)
        → runs (after start regions) ≡ r ∷ rest
        → All (λ (t : MemoryRegion). t.size < fuel) (r ∷ rest)
        → walk_loop P walk_fn fuel n fuel max_retries (cut start r) [] w s
          ≡ done (reply none, w, (feed memory walk_fn (visits n (cut start r ∷ rest)) s).1)
    from_run start r rest w s e (f, fits) =
        let l : IsLayout 1 (r ∷ rest) = rw e at (
          IsLayout-runs (after start regions) 1 (after-IsLayout regions start 1 st.lists.layout)) in
        let past = run_past st.lists start r rest e in
        let c = cut_lem start r l.1 past in
        let covers : All (Covers regions) (r ∷ rest) =
          All-Covers-after regions (r ∷ rest) start (rw e at (runs-Covers (after start regions))) in
        let behind : runs (after (end_of r) regions) ≡ rest =
          rw (← after-after regions start (end_of r) (omega arith)) (
            runs-after (after start regions) 1 r rest
              (after-IsLayout regions start 1 st.lists.layout) e) in
        walk_loop_lem fuel max_retries (cut start r) rest w s
          (omega (
            arith,
            length-runs (after start regions),
            length-after regions start,
            ap (λ (t : List MemoryRegion). length t) e,
          ))
          c.has_bytes (omega (arith, c.same_end, l.2))
          (λ x a b. covers.0 x (omega (arith, c.inside)) (omega (arith, c.same_end))) covers.1
          (omega (arith, c.no_larger), fits) (rw c.same_end behind)

    cut_before-cut :
        (start : ℕ) (r : MemoryRegion)
        → start < end_of r
        → end_of r < word
        → cut_before start r ≡ some (cut start r)
    unfolding cut_before cut
    cut_before-cut start r h b = ground arith

    found_at :
        (start : ℕ) (rest : List MemoryRegion) (w : P.World)
        → runs (after start regions) ≡ rest
        → next_readable_memory_region P fuel start w ≡ done (found (first rest), w)
    found_at start rest w e =
        rw (← e) (next_readable_memory_region_lem st.lists fuel (omega arith) start w)

    -- Over memory that does not change, with a buffer of at least one byte, `WalkMemory` shows its
    -- callback the readable memory from the start address on, run by run and in pieces of the
    -- buffer's size, up to the first refusal. Where there is none it returns the hard error for a
    -- start above 0; it reports no other error. The fuel is enough if it passes the number of
    -- regions by two and is above the size of each run.
    pub walk_memory_lem :
        (start : ℕ) (w : P.World) (s : S)
        → All (λ (t : MemoryRegion). t.size < fuel) (runs (after start regions))
        → walk_memory P walk_fn fuel n start w s
          ≡ done (
            reply (walk_error start (readable_from start regions)),
            w,
            (feed memory walk_fn (visits n (readable_from start regions)) s).1,
          )
    unfolding walk_memory readable_from first visits feed cut_before
    walk_memory_lem start w s fits = elim (List-cases (runs (after start regions))) [
      | inl e ↦ rw e (ground (arith, found_at start [] w e, walk_loop-none fuel max_retries w s))
      | inr (r, rest, e) ↦
          let l : IsLayout 1 (r ∷ rest) = rw e at (
            IsLayout-runs (after start regions) 1
              (after-IsLayout regions start 1 st.lists.layout)) in
          rw e (
            ground (
              arith,
              found_at start (r ∷ rest) w e,
              cut_before-cut start r (run_past st.lists start r rest e) l.2,
              from_run start r rest w s e (rw e at fits),
            ))
    ]

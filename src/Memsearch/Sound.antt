-- ===== src/Memsearch/Sound.antt =====
-- What stands at an address that `FindBytesSequence` reports.
use masche.Prelude.{
  ℕ, zero, suc, ◌+◌, ◌%◌, ◌≤◌, ◌<◌, ◌≡◌, refl, sym, ap, ◌∙◌, true, List, [], ◌∷◌, some, Bytes,
  length, All, arith, ◌==◌, Bool-cases, Option-cases, inl, inr,
}
use masche.Go.{Outcome, done, panic, out_of_fuel}
use masche.Memaccess.Region.{MemoryRegion}
use masche.Memaccess.Platform.{Platform}
use masche.Memaccess.Image.{IsStable, after, runs, read}
use masche.Memaccess.Walk.Visits.{readable_from}
use masche.Memsearch.{has_prefix, index, Hit, no_hit, Search, buffer_size_for, find_bytes_sequence}
use masche.Memsearch.Exact.{first_hit, find_bytes_sequence_exact}

module _ (memory : ℕ → ℕ) where
  read-has_prefix :
      (needle : Bytes) (n a : ℕ)
      → has_prefix (read memory a n) needle ≡ true
      → read memory a (length needle) ≡ needle
  unfolding read has_prefix
  read-has_prefix [] n a h = refl
  read-has_prefix (p ∷ needle) zero a h = absurd (cc)
  read-has_prefix (p ∷ needle) (suc n) a h = elim (Bool-cases (memory a == p)) [
    | inl e ↦ ground (arith, read-has_prefix needle n (a + 1))
    | inr e ↦ ground arith
  ]

  read-index :
      (needle : Bytes) (n a i : ℕ)
      → index (read memory a n) needle ≡ some i
      → read memory (a + i) (length needle) ≡ needle
  unfolding read index
  read-index needle zero a i h = elim (Bool-cases (has_prefix [] needle)) [
    | inl e ↦ let here : a + i ≡ a = ground arith in rw here (read-has_prefix needle zero a e)
    | inr e ↦ absurd (ground arith)
  ]
  read-index needle (suc n) a i h =
      elim (Bool-cases (has_prefix (memory a ∷ read memory (a + 1) n) needle)) [
        | inl e ↦
            let here : a + i ≡ a = ground arith in rw here (read-has_prefix needle (suc n) a e)
        | inr e ↦ elim (Option-cases (index (read memory (a + 1) n) needle)) [
          | inl k ↦ absurd (ground arith)
          | inr (j, k) ↦
              let there : a + i ≡ a + 1 + j = ground arith in
              rw there (read-index needle n (a + 1) j k)
        ]
      ]

  read-first_hit :
      (needle : Bytes) (rs : List MemoryRegion)
      → (first_hit memory needle rs).found ≡ true
      → read memory (first_hit memory needle rs).found_address (length needle) ≡ needle
  unfolding first_hit
  read-first_hit needle [] h = absurd (cc)
  read-first_hit needle (r ∷ rs) h =
      elim (Option-cases (index (read memory r.address r.size) needle)) [
        | inl e ↦ rw (first_hit, e) (read-first_hit needle rs (rw (first_hit, e) at h))
        | inr (i, e) ↦ rw (first_hit, e) (read-index needle r.size r.address i e)
      ]

-- The hit of a search that returns.
abbrev hit_of : {W : Type 0} → Outcome (Search × W) → Hit
hit_of (done v) = v.0.hit
hit_of panic = no_hit
hit_of out_of_fuel = no_hit

-- Over memory that does not change, with a buffer of even size in which each readable run from the
-- address on fits, and fuel that passes the number of regions by two and is above the size of each
-- run: if `FindBytesSequence` returns and has found something, the needle stands in the memory at
-- the address that it reports.
pub find_bytes_sequence_sound :
    (needle : Bytes) {P : Platform} {regions : List MemoryRegion} {memory : ℕ → ℕ}
    (st : IsStable P regions memory) (fuel : ℕ) (enough : length regions + 1 < fuel) (address : ℕ)
    (fits : All (λ (r : MemoryRegion). r.size < fuel) (runs (after address regions)))
    (even : buffer_size_for needle % 2 ≡ 0)
    (short : All
      (λ (r : MemoryRegion). r.size ≤ buffer_size_for needle)
      (readable_from address regions))
    (w w' : P.World) (result : Search)
    → find_bytes_sequence P fuel address needle w ≡ done (result, w')
    → result.hit.found ≡ true
    → read memory result.hit.found_address (length needle) ≡ needle
find_bytes_sequence_sound needle {regions = regions} {memory = memory} st fuel enough address fits
      even short w w' result returns found =
    let exact = find_bytes_sequence_exact needle st fuel enough address fits even short w in
    let same : result.hit ≡ first_hit memory needle (readable_from address regions) =
      ap hit_of (sym returns ∙ exact) in
    rw same (read-first_hit memory needle (readable_from address regions) (rw same at found))

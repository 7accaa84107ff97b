-- ===== src/Memaccess/Walk/Visits.antt =====
-- What a walk shows its callback: the pieces of the readable runs, up to the first refusal.
use masche.Prelude.{
  ℕ, zero, suc, ◌+◌, ◌-◌, ◌≤◌, ◌<◌, ◌≡◌, refl, Bool, true, false, List, [], ◌∷◌, ◌++◌, Bytes, ltb,
  if◌then◌else◌, arith, All, All-append, Bool-cases, inl, inr, ap, ◌∙◌, sym, append-nil,
}
use masche.Memaccess.Region.{MemoryRegion}
use masche.Memaccess.Image.{end_of, read, after, runs}
use masche.Memaccess.Walk.{WalkFunc}

-- `remaining` bytes from `a` on in pieces of `n` bytes, the last one perhaps shorter, each as its
-- address and its length. As many rounds as bytes are enough.
unfoldable pub pieces : ℕ → ℕ → ℕ → ℕ → List (ℕ × ℕ)
pieces zero n a remaining = []
pieces (suc rounds) n a remaining =
    let m = if ltb remaining n then remaining else n in
    let rest = pieces rounds n (a + m) (remaining - m) in
    if ltb 0 remaining then (a, m) ∷ rest else []

-- The pieces of some runs.
unfoldable pub visits : ℕ → List MemoryRegion → List (ℕ × ℕ)
visits n [] = []
visits n (r ∷ rs) = pieces r.size n r.address r.size ++ visits n rs

-- The part of a run from `start` on.
unfoldable pub cut : ℕ → MemoryRegion → MemoryRegion
cut start r =
    if ltb r.address start then record r { address = start; size = end_of r - start } else r

unfoldable pub cut_first : ℕ → List MemoryRegion → List MemoryRegion
cut_first start [] = []
cut_first start (r ∷ rs) = cut start r ∷ rs

-- The readable runs of a layout from `start` on.
unfoldable pub readable_from : ℕ → List MemoryRegion → List MemoryRegion
unfolding cut_first
readable_from start regions = cut_first start (runs (after start regions))

module _ {S : Type 0} (memory : ℕ → ℕ) (walk_fn : WalkFunc S) where
  -- The callback at each piece, until it returns false.
  unfoldable pub feed : List (ℕ × ℕ) → S → Bool × S
  feed [] s = (true, s)
  feed ((a, m) ∷ rest) s =
      let (more, s') = walk_fn a (read memory a m) s in
      elim more [ true ↦ feed rest s' | false ↦ (false, s') ]

  pub feed_on :
      (a m : ℕ) (rest : List (ℕ × ℕ)) (s : S)
      → (walk_fn a (read memory a m) s).0 ≡ true
      → feed ((a, m) ∷ rest) s ≡ feed rest (walk_fn a (read memory a m) s).1
  unfolding feed
  feed_on a m rest s h = ground arith

  pub feed_off :
      (a m : ℕ) (rest : List (ℕ × ℕ)) (s : S)
      → (walk_fn a (read memory a m) s).0 ≡ false
      → feed ((a, m) ∷ rest) s ≡ (false, (walk_fn a (read memory a m) s).1)
  unfolding feed
  feed_off a m rest s h = ground arith

  pub feed-append-true :
      (xs ys : List (ℕ × ℕ)) (s : S)
      → (feed xs s).0 ≡ true
      → feed (xs ++ ys) s ≡ feed ys (feed xs s).1
  unfolding feed
  feed-append-true [] ys s h = refl
  feed-append-true ((a, m) ∷ xs) ys s h =
      ground (arith, feed-append-true xs ys (walk_fn a (read memory a m) s).1)

  pub feed-append-false :
      (xs ys : List (ℕ × ℕ)) (s : S) → (feed xs s).0 ≡ false → feed (xs ++ ys) s ≡ feed xs s
  unfolding feed
  feed-append-false [] ys s h = absurd (cc)
  feed-append-false ((a, m) ∷ xs) ys s h =
      ground (arith, feed-append-false xs ys (walk_fn a (read memory a m) s).1)

pub pieces-none : (rounds n a : ℕ) → pieces rounds n a 0 ≡ []
unfolding pieces
pieces-none zero n a = refl
pieces-none (suc rounds) n a = refl

pub read-append :
    (memory : ℕ → ℕ) (m k a : ℕ) → read memory a (m + k) ≡ read memory a m ++ read memory (a + m) k
unfolding read
read-append memory zero k a = ground arith
read-append memory (suc m) k a =
    let e : suc m + k ≡ suc (m + k) = omega arith in
    let e' : a + suc m ≡ a + 1 + m = omega arith in
    rw (e, e') (ap (λ t. memory a ∷ t) (read-append memory m k (a + 1)))

-- The bytes of the pieces, one piece after the other.
unfoldable pub bytes_of : (ℕ → ℕ) → List (ℕ × ℕ) → Bytes
bytes_of memory [] = []
bytes_of memory ((a, m) ∷ rest) = read memory a m ++ bytes_of memory rest

-- Pieces of a positive length spell the whole range, in order and once.
pub bytes_of-pieces :
    (memory : ℕ → ℕ) (rounds n a remaining : ℕ)
    → 0 < n
    → remaining ≤ rounds
    → bytes_of memory (pieces rounds n a remaining) ≡ read memory a remaining
unfolding bytes_of pieces read
bytes_of-pieces memory zero n a remaining h b = let e : remaining ≡ 0 = omega arith in rw e
bytes_of-pieces memory (suc rounds) n a remaining h b = elim (Bool-cases (ltb 0 remaining)) [
  | inr none_left ↦ let e : remaining ≡ 0 = ground arith in rw e
  | inl some_left ↦ elim (Bool-cases (ltb remaining n)) [
    | inl short ↦
        let e : remaining - remaining ≡ 0 = omega arith in
        rw (some_left, short, e, pieces-none, append-nil)
    | inr long ↦
        let e : remaining ≡ n + (remaining - n) = ground arith in
        let ih = bytes_of-pieces memory rounds n (a + n) (remaining - n) h (omega arith) in
        rw (some_left, long, bytes_of, ih) (sym (read-append memory n (remaining - n) a) ∙ rw (← e))
  ]
]

-- What `cut` leaves of a run that does not end at or before the start.
pub record IsCut (start : ℕ) (r : MemoryRegion) : Type 0 where
  pub same_end : end_of (cut start r) ≡ end_of r
  pub has_bytes : 0 < (cut start r).size
  pub no_larger : (cut start r).size ≤ r.size
  pub inside : r.address ≤ (cut start r).address

pub cut_lem : (start : ℕ) (r : MemoryRegion) → 0 < r.size → start < end_of r → IsCut start r
unfolding cut
cut_lem start r p h = ground arith

pub pieces-le :
    (rounds n a remaining : ℕ) → All (λ (v : ℕ × ℕ). v.1 ≤ n) (pieces rounds n a remaining)
unfolding pieces
pieces-le zero n a remaining = tt
pieces-le (suc rounds) n a remaining = elim (Bool-cases (ltb 0 remaining)) [
  | inr none_left ↦ rw none_left tt
  | inl some_left ↦ rw some_left (ground arith, pieces-le rounds n _ _)
]

pub visits-le : (n : ℕ) (rs : List MemoryRegion) → All (λ (v : ℕ × ℕ). v.1 ≤ n) (visits n rs)
unfolding visits
visits-le n [] = tt
visits-le n (r ∷ rs) =
    All-append _ (pieces r.size n r.address r.size) (visits n rs)
      (pieces-le r.size n r.address r.size) (visits-le n rs)

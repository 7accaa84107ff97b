-- ===== src/Process/Sort.antt =====
-- `GetAllPids` sorts what the system lists.
use mathlib.Core.List.{Perm}
use mathlib.Core.List.Perm
use masche.Prelude.{◌≡◌, refl, List, [], ◌∷◌, arith, All, Bool-cases, inl, inr, none}
use masche.Go.Int.{ℤ, ◌≤ℤ◌, leb_ℤ}
use masche.Process.{insert, sort, Host, get_all_pids}

abbrev pub IsSorted : List ℤ → Type 0
IsSorted [] = Unit
IsSorted (n ∷ ns) = All (λ (m : ℤ). n ≤ℤ m) ns × IsSorted ns

insert-All :
    (k n : ℤ) (ns : List ℤ)
    → k ≤ℤ n
    → All (λ (m : ℤ). k ≤ℤ m) ns
    → All (λ (m : ℤ). k ≤ℤ m) (insert n ns)
unfolding insert
insert-All k n [] h t = (h, tt)
insert-All k n (m ∷ ms) h (hm, t) = elim (Bool-cases (leb_ℤ n m)) [
  | inl e ↦ rw e (h, (hm, t))
  | inr e ↦ rw e (hm, insert-All k n ms h t)
]

All-le : (k n : ℤ) (ns : List ℤ) → k ≤ℤ n → All (λ (m : ℤ). n ≤ℤ m) ns → All (λ (m : ℤ). k ≤ℤ m) ns
All-le k n [] h t = tt
All-le k n (m ∷ ms) h (hm, t) = (omega arith, All-le k n ms h t)

insert-IsSorted : (n : ℤ) (ns : List ℤ) → IsSorted ns → IsSorted (insert n ns)
unfolding insert
insert-IsSorted n [] s = (tt, tt)
insert-IsSorted n (m ∷ ms) (h, s) = elim (Bool-cases (leb_ℤ n m)) [
  | inl e ↦ let le : n ≤ℤ m = ground arith in rw e ((le, All-le n m ms le h), (h, s))
  | inr e ↦ let le : m ≤ℤ n = ground arith in rw e (insert-All m n ms le h, insert-IsSorted n ms s)
]

insert-perm : (n : ℤ) (ns : List ℤ) → Perm (insert n ns) (n ∷ ns)
unfolding insert
insert-perm n [] = Perm.refl (n ∷ [])
insert-perm n (m ∷ ms) = elim (Bool-cases (leb_ℤ n m)) [
  | inl e ↦ rw e (Perm.refl (n ∷ m ∷ ms))
  | inr e ↦ rw e (Perm.trans (Perm.cons m (insert-perm n ms)) (Perm.swap n m ms))
]

sort-IsSorted : (ns : List ℤ) → IsSorted (sort ns)
unfolding sort
sort-IsSorted [] = tt
sort-IsSorted (n ∷ ns) = insert-IsSorted n (sort ns) (sort-IsSorted ns)

sort-perm : (ns : List ℤ) → Perm (sort ns) ns
unfolding sort
sort-perm [] = Perm.refl []
sort-perm (n ∷ ns) = Perm.trans (insert-perm n (sort ns)) (Perm.cons n (sort-perm ns))

get_all_pids_sorts :
    (h : Host) (w : h.World)
    → (h.get_all_pids w).0.harderror ≡ none
    → (get_all_pids h w).0 ≡ record {
      pids = sort (h.get_all_pids w).0.pids;
      harderror = none;
      softerrors = (h.get_all_pids w).0.softerrors;
    }
unfolding get_all_pids
get_all_pids_sorts h w e = ground arith

-- Without a hard error `GetAllPids` returns the pids that the system lists, each as often, in
-- ascending order.
pub get_all_pids_lem :
    (h : Host) (w : h.World)
    → (h.get_all_pids w).0.harderror ≡ none
    → IsSorted (get_all_pids h w).0.pids
      × Perm (get_all_pids h w).0.pids (h.get_all_pids w).0.pids
      × ((get_all_pids h w).0.harderror ≡ none)
get_all_pids_lem h w e =
    let listed = (h.get_all_pids w).0.pids in
    rw (get_all_pids_sorts h w e) (sort-IsSorted listed, sort-perm listed, refl)

-- ===== src/Memsearch/Prefix.antt =====
-- `Index` in the front of a text.
use masche.Prelude.{
  ℕ, ◌+◌, ◌≤◌, ◌≡◌, refl, true, [], ◌∷◌, ◌++◌, some, Bytes, length, arith, Bool-cases, Option-cases,
  inl, inr,
}
use masche.Memsearch.{has_prefix, index}

length-has_prefix : (s sep : Bytes) → has_prefix s sep ≡ true → length sep ≤ length s
unfolding has_prefix
length-has_prefix s [] h = omega arith
length-has_prefix [] (p ∷ sep) h = ground arith
length-has_prefix (c ∷ s) (p ∷ sep) h = ground (arith, length-has_prefix s sep)

-- A hit leaves room for the separator.
pub length-index : (s sep : Bytes) (i : ℕ) → index s sep ≡ some i → i + length sep ≤ length s
unfolding index
length-index [] sep i h = ground (arith, length-has_prefix [] sep)
length-index (c ∷ s) sep i h = elim (Bool-cases (has_prefix (c ∷ s) sep)) [
  | inl e ↦ ground (arith, length-has_prefix (c ∷ s) sep e)
  | inr e ↦ elim (Option-cases (index s sep)) [
    | inl k ↦ ground arith
    | inr (j, k) ↦ ground (arith, length-index s sep j k)
  ]
]

has_prefix-front :
    (x y sep : Bytes) → length sep ≤ length x → has_prefix (x ++ y) sep ≡ has_prefix x sep
unfolding has_prefix
has_prefix-front x y [] h = refl
has_prefix-front [] y (p ∷ sep) h = absurd (omega arith)
has_prefix-front (c ∷ x) y (p ∷ sep) h = ground (arith, has_prefix-front x y sep)

-- A hit in the front of a text is the first in the text.
pub index-front : (x y sep : Bytes) (i : ℕ) → index x sep ≡ some i → index (x ++ y) sep ≡ some i
unfolding index has_prefix
index-front [] [] sep i h = h
index-front [] (c ∷ y) [] i h = h
index-front [] (c ∷ y) (p ∷ sep) i h = absurd (cc)
index-front (c ∷ x) y sep i h =
    let same = has_prefix-front (c ∷ x) y sep (omega (arith, length-index (c ∷ x) sep i h)) in
    elim (Bool-cases (has_prefix (c ∷ x) sep)) [
      | inl e ↦ ground (arith, same)
      | inr e ↦ elim (Option-cases (index x sep)) [
        | inl k ↦ absurd (ground arith)
        | inr (j, k) ↦ ground (arith, same, index-front x y sep j k)
      ]
    ]

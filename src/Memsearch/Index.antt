-- ===== src/Memsearch/Index.antt =====
-- `bytes.Index` against the parts of a buffer.
use masche.Prelude.{ℕ, ◌≡◌, refl, false, [], ◌∷◌, ◌++◌, none, Bytes, arith}
use masche.Memsearch.{has_prefix, index}

has_prefix-append : (x y sep : Bytes) → has_prefix (x ++ y) sep ≡ false → has_prefix x sep ≡ false
unfolding has_prefix
has_prefix-append x y [] h = absurd (ground arith)
has_prefix-append [] y (p ∷ sep) h = refl
has_prefix-append (c ∷ x) y (p ∷ sep) h = ground (arith, has_prefix-append x y sep)

pub index_here : (s sep : Bytes) → index s sep ≡ none → has_prefix s sep ≡ false
unfolding index
index_here [] sep h = ground arith
index_here (c ∷ s) sep h = ground arith

index_next : (c : ℕ) (s sep : Bytes) → index (c ∷ s) sep ≡ none → index s sep ≡ none
unfolding index
index_next c s sep h = ground arith

index_cons :
    (c : ℕ) (s sep : Bytes)
    → has_prefix (c ∷ s) sep ≡ false
    → index s sep ≡ none
    → index (c ∷ s) sep ≡ none
unfolding index
index_cons c s sep h k = ground arith

index_nil : (sep : Bytes) → has_prefix [] sep ≡ false → index [] sep ≡ none
unfolding index
index_nil sep h = ground arith

pub index-left : (x y sep : Bytes) → index (x ++ y) sep ≡ none → index x sep ≡ none
index-left [] y sep h = index_nil sep (has_prefix-append [] y sep (index_here y sep h))
index-left (c ∷ x) y sep h =
    index_cons c x sep (has_prefix-append (c ∷ x) y sep (index_here (c ∷ (x ++ y)) sep h))
      (index-left x y sep (index_next c (x ++ y) sep h))

pub index-right : (x y sep : Bytes) → index (x ++ y) sep ≡ none → index y sep ≡ none
index-right [] y sep h = h
index-right (c ∷ x) y sep h = index-right x y sep (index_next c (x ++ y) sep h)

-- A text stands in another at no place exactly if `Index` gives -1.

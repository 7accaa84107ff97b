-- ===== src/Go/Strings.antt =====
-- Package strings: `Index` and `Split` with a one-byte separator, `TrimLeft` and `Trim` with one
-- byte to cut, and `HasPrefix`.
pub mod Space
use masche.Prelude.{
  ℕ, suc, ◌≡◌, refl, ◌≢◌, List, [], ◌∷◌, ◌++◌, Option, none, some, arith, Bytes, ◌==◌,
  if◌then◌else◌, length, All, Bool-cases, inl, inr,
}
use mathlib.Core.Option

-- `none` is Go's -1.
unfoldable pub index : Bytes → ℕ → Option ℕ
index [] c = none
index (b ∷ s) c = let rest = index s c in if b == c then some 0 else Option.map suc rest

abbrev cons_head : ℕ → List Bytes → List Bytes
cons_head c [] = (c ∷ []) ∷ []
cons_head c (f ∷ fs) = (c ∷ f) ∷ fs

unfoldable pub split : Bytes → ℕ → List Bytes
split [] sep = [] ∷ []
split (c ∷ s) sep = let rest = split s sep in if c == sep then [] ∷ rest else cons_head c rest

unfoldable pub trim_left : Bytes → ℕ → Bytes
trim_left [] c = []
trim_left (b ∷ s) c = let rest = trim_left s c in if b == c then rest else b ∷ s

-- The number of times that a byte stands in a text.
unfoldable pub count : ℕ → Bytes → ℕ
count c [] = 0
count c (b ∷ s) = if b == c then suc (count c s) else count c s

abbrev pub Lacks : ℕ → Bytes → Type 0
Lacks c = All (λ b. b ≢ c)

pub index-append : (f rest : Bytes) (c : ℕ) → Lacks c f → index (f ++ c ∷ rest) c ≡ some (length f)
unfolding index
index-append [] rest c h = ground arith
index-append (b ∷ f) rest c (hb, hf) = ground (arith, index-append f rest c hf)

pub split-Lacks : (f : Bytes) (c : ℕ) → Lacks c f → split f c ≡ f ∷ []
unfolding split
split-Lacks [] c h = refl
split-Lacks (b ∷ f) c (hb, hf) = ground (arith, split-Lacks f c hf)

pub split-append : (f rest : Bytes) (c : ℕ) → Lacks c f → split (f ++ c ∷ rest) c ≡ f ∷ split rest c
unfolding split
split-append [] rest c h = ground arith
split-append (b ∷ f) rest c (hb, hf) = ground (arith, split-append f rest c hf)

-- Package strings' `Join` with a one-byte separator.
unfoldable pub join : List Bytes → ℕ → Bytes
join [] sep = []
join (f ∷ []) sep = f
join (f ∷ g ∷ r) sep = f ++ sep ∷ join (g ∷ r) sep

split-ne-nil : (s : Bytes) (c : ℕ) → split s c ≢ []
unfolding split
split-ne-nil [] c h = cc
split-ne-nil (b ∷ s) c h = cons_head-ne-nil (split s c) (ground arith)
  where
    cons_head-ne-nil : (l : List Bytes) → cons_head b l ≡ [] → ⊥
    cons_head-ne-nil [] e = cc
    cons_head-ne-nil (f ∷ fs) e = cc

join-cons_head : (b c : ℕ) (l : List Bytes) → l ≢ [] → join (cons_head b l) c ≡ b ∷ join l c
unfolding join
join-cons_head b c [] h = absurd (h refl)
join-cons_head b c (f ∷ []) h = refl
join-cons_head b c (f ∷ g ∷ r) h = refl

join-nil-cons : (c : ℕ) (l : List Bytes) → l ≢ [] → join ([] ∷ l) c ≡ c ∷ join l c
unfolding join
join-nil-cons c [] h = absurd (h refl)
join-nil-cons c (f ∷ r) h = refl

-- The parts of a split spell the text.
pub join-split : (s : Bytes) (c : ℕ) → join (split s c) c ≡ s
unfolding split
join-split [] c = unfold join in refl
join-split (b ∷ s) c = elim (Bool-cases (b == c)) [
  | inl e ↦ rw (e, join-nil-cons c (split s c) (split-ne-nil s c), join-split s c) (ground arith)
  | inr e ↦ rw (e, join-cons_head b c (split s c) (split-ne-nil s c), join-split s c)
]

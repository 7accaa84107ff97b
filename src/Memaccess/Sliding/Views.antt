-- ===== src/Memaccess/Sliding/Views.antt =====
-- The buffers that the user's callback sees: the first two pieces of a run together, and behind them
-- the first piece with each next one.
use masche.Prelude.{
  ℕ, ◌+◌, ◌-◌, ◌≤◌, ◌<◌, ◌≡◌, refl, Bool, true, false, List, [], ◌∷◌, ◌++◌, Bytes, ltb, arith, ap,
  Bool-cases, inl, inr, ◌∙◌, sym,
}
use masche.Memaccess.Region.{MemoryRegion}
use masche.Memaccess.Image.{read}
use masche.Memaccess.Walk.{WalkFunc}
use masche.Memaccess.Walk.Visits.{pieces, read-append}
use masche.Memaccess.Sliding.Feeding.{pieces-one, pieces-two}

-- What the callback is called with: an address and the bytes of the buffer.
abbrev pub Views : Type 0
Views = List (ℕ × Bytes)

-- The callback at each view, until it returns false.
unfoldable pub show_all : {S : Type 0} → WalkFunc S → Views → S → Bool × S
show_all walk_fn [] s = (true, s)
show_all walk_fn ((a, b) ∷ vs) s =
    let (more, s') = walk_fn a b s in
    elim more [ true ↦ show_all walk_fn vs s' | false ↦ (false, s') ]

module _ {S : Type 0} (walk_fn : WalkFunc S) (a : ℕ) (b : Bytes) (vs : Views) (s : S) where
  pub show_all_on :
      (walk_fn a b s).0 ≡ true
      → show_all walk_fn ((a, b) ∷ vs) s ≡ show_all walk_fn vs (walk_fn a b s).1
  unfolding show_all
  show_all_on h = ground arith

  pub show_all_off :
      (walk_fn a b s).0 ≡ false → show_all walk_fn ((a, b) ∷ vs) s ≡ (false, (walk_fn a b s).1)
  unfolding show_all
  show_all_off h = ground arith

pub show_all_last :
    {S : Type 0} (walk_fn : WalkFunc S) (a : ℕ) (b : Bytes) (s : S)
    → (show_all walk_fn ((a, b) ∷ []) s).1 ≡ (walk_fn a b s).1
unfolding show_all
show_all_last walk_fn a b s = ground arith

module _ (memory : ℕ → ℕ) (half : ℕ) where
  -- Behind the second piece: `front` is the first piece of the run.
  unfoldable pub later : Bytes → List (ℕ × ℕ) → Views
  later front [] = []
  later front ((x, m) ∷ ps) = (x - half, front ++ read memory x m) ∷ later front ps

  unfoldable pub piece_views : List (ℕ × ℕ) → Views
  unfolding later
  piece_views [] = []
  piece_views ((a, m) ∷ []) = (a, read memory a m) ∷ []
  piece_views ((a, m) ∷ (x, k) ∷ ps) =
      (a, read memory a m ++ read memory x k) ∷ later (read memory a m) ps

  unfoldable pub views : List MemoryRegion → Views
  unfolding piece_views
  views [] = []
  views (r ∷ rs) = piece_views (pieces r.size half r.address r.size) ++ views rs

  -- A run that fits in the buffer is one view.
  pub piece_views-whole :
      (m a : ℕ)
      → 0 < m
      → 0 < half
      → m ≤ half + half
      → piece_views (pieces m half a m) ≡ (a, read memory a m) ∷ []
  unfolding piece_views later
  piece_views-whole m a p q h = elim (Bool-cases (ltb half m)) [
    | inr short ↦ rw (pieces-one m half a p (ground arith)) refl
    | inl long ↦
        let sums : half + (m - half) ≡ m = ground arith in
        rw (pieces-two m half a (ground arith) h q) (
          ap (λ t. (a, t) ∷ [])
            (sym (read-append memory half (m - half) a) ∙ ap (read memory a) sums))
  ]

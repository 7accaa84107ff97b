-- ===== src/Memsearch.antt =====
-- memsearch/memsearch.go: the search for bytes and for a regular expression.
pub mod Index
pub mod Prefix
pub mod Complete
pub mod Views
pub mod Exact
pub mod Sound
pub mod Keeps
use masche.Prelude.{
  ℕ, ◌+◌, Bool, true, false, List, [], ◌∷◌, Option, none, some, Bytes, ltb, ◌==◌, ◌&&◌,
  if◌then◌else◌, length,
}
use masche.Go.{Error, Outcome, done, ◌>>=◌, add64}
use masche.Memaccess.Platform.{Platform}
use masche.Memaccess.Walk.{WalkFunc, Reply}
use masche.Memaccess.Sliding.{sliding_walk_memory}
use mathlib.Core.Option

abbrev pub min_buffer_size : ℕ
min_buffer_size = 4096

-- Package bytes: `HasPrefix` and `Index`. `none` is -1.
unfoldable pub has_prefix : Bytes → Bytes → Bool
has_prefix s [] = true
has_prefix [] (p ∷ prefix) = false
has_prefix (c ∷ s) (p ∷ prefix) = c == p && has_prefix s prefix

unfoldable pub index : Bytes → Bytes → Option ℕ
unfolding has_prefix
index [] sep = if has_prefix [] sep then some 0 else none
index (c ∷ s) sep =
    let rest = Option.map (λ (i : ℕ). i + 1) (index s sep) in
    if has_prefix (c ∷ s) sep then some 0 else rest

-- The captured variables `found` and `foundAddress`.
pub record Hit : Type 0 where
  pub found : Bool
  pub found_address : ℕ

abbrev pub no_hit : Hit
no_hit = record { found = false; found_address = 0 }

-- The results `(found, foundAddress, harderror, softerrors)`.
pub record Search : Type 0 where
  pub hit : Hit
  pub harderror : Option Error
  pub softerrors : List Error

-- The callback of both searches, over what tells where a buffer matches.
unfoldable pub look : (Bytes → Option ℕ) → WalkFunc Hit
look match_at address buffer h = elim (match_at buffer) [
  | none ↦ (true, h)
  | some i ↦ (false, record { found = true; found_address = add64 address i })
]

unfoldable pub buffer_size_for : Bytes → ℕ
buffer_size_for needle =
    if ltb min_buffer_size (length needle) then length needle else min_buffer_size

module _ (P : Platform) (fuel : ℕ) where
  unfoldable pub search : (Bytes → Option ℕ) → ℕ → ℕ → P.World → Outcome (Search × P.World)
  search match_at buffer_size address w =
      sliding_walk_memory (look match_at) buffer_size P fuel address w no_hit >>= λ (r, w', h).
      let result : Search = record {
        hit = h;
        harderror = r.harderror;
        softerrors = r.softerrors;
      } in
      done (result, w')

  unfoldable pub find_bytes_sequence : ℕ → Bytes → P.World → Outcome (Search × P.World)
  find_bytes_sequence address needle w =
      search (λ buffer. index buffer needle) (buffer_size_for needle) address w

  -- `find_index` is the start of `r.FindIndex(buf)`; package regexp is not modelled.
  unfoldable pub find_regexp_match : (Bytes → Option ℕ) → ℕ → P.World → Outcome (Search × P.World)
  find_regexp_match find_index address w = search find_index 4096 address w

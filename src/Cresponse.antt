-- ===== src/Cresponse.antt =====
-- cresponse/cresponse.go: the errors of a `response_t`, and which responses are still allocated.
use masche.Prelude.{◌≡◌, true, false, List, [], ◌∷◌, ◌++◌, Option, none, some, Bytes}
use masche.Go.{Error, c_error}
use masche.Go.Int.{ℤ, is_zero}

-- `error_t`, with the text that its `description` points to.
pub record ErrorT : Type 0 where
  pub error_number : ℤ
  pub description : Bytes

-- `response_t`: the soft errors are the array of `soft_errors_count` elements.
pub record ResponseT : Type 0 where
  pub fatal_error : Option ErrorT
  pub soft_errors : List ErrorT

-- `CError`, as an error value.
unfoldable pub c_error_from_error_t : ErrorT → Error
c_error_from_error_t e = c_error e.error_number e.description

unfoldable pub hard_error : Option ErrorT → Option Error
unfolding c_error_from_error_t
hard_error none = none
hard_error (some e) = elim (is_zero e.error_number) [
  | true ↦ none
  | false ↦ some (c_error_from_error_t e)
]

unfoldable pub soft_loop : List ErrorT → List Error → List Error
unfolding c_error_from_error_t
soft_loop [] softerrors = softerrors
soft_loop (e ∷ es) softerrors = soft_loop es (softerrors ++ c_error_from_error_t e ∷ [])

-- The results `(harderror, softerrors)`.
pub record Errors : Type 0 where
  pub harderror : Option Error
  pub softerrors : List Error

unfoldable pub get_responses_errors : ResponseT → Errors
unfolding hard_error soft_loop
get_responses_errors r = record {
  harderror = hard_error r.fatal_error;
  softerrors = soft_loop r.soft_errors [];
}

-- The C code's memory: what a pointer to a `response_t` points to, and `response_free`.
pub record Responses : Type 1 where
  pub World : Type 0
  pub Pointer : Type 0
  pub points_to : Pointer → World → ResponseT
  pub response_free : Pointer → World → World

-- The Go code's use of a response: its errors are read, and it is freed.
module _ (R : Responses) where
  unfoldable pub take_response : R.Pointer → R.World → Errors × R.World
  take_response p w = (get_responses_errors (R.points_to p w), R.response_free p w)

-- Which responses are allocated: `response_free` frees the one that is given to it.
pub record Allocation (R : Responses) : Type 0 where
  pub live : R.World → List R.Pointer
  pub frees :
      (p : R.Pointer) (ps : List R.Pointer) (w : R.World)
      → live w ≡ p ∷ ps
      → live (R.response_free p w) ≡ ps

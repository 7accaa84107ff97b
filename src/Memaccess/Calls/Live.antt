-- ===== src/Memaccess/Calls/Live.antt =====
-- The responses that the calls of memaccess_c_wrapper.go leave allocated.
use masche.Prelude.{ℕ, zero, suc, ◌≡◌, ◌∙◌, ap, List, ◌∷◌}
use masche.Cresponse.{Responses, Allocation, take_response}
use masche.Memaccess.Region.{Found, Copied}
use masche.Memaccess.Calls.{MemoryCalls, next_memory_region, copy_memory, c_platform}
use masche.Memaccess.Walk.Keeps.{Holds, Keeps}

-- Every call makes one response.
pub record Responds {R : Responses} (C : MemoryCalls R) : Type 0 where
  pub allocation : Allocation R
  pub live-next :
      (a : ℕ) (w : R.World)
      → allocation.live (C.get_next_memory_region a w).1
        ≡ (C.get_next_memory_region a w).0.2 ∷ allocation.live w
  pub live-copy :
      (a n : ℕ) (w : R.World)
      → allocation.live (C.copy_process_memory a n w).1
        ≡ (C.copy_process_memory a n w).0.2 ∷ allocation.live w

module _ {R : Responses} {C : MemoryCalls R} (responds : Responds C) (ps : List R.Pointer) where
  open responds use {allocation}

  next_frees :
      (a : ℕ) (w : R.World)
      → allocation.live w ≡ ps
      → Holds (λ (v : Found × R.World). allocation.live v.1 ≡ ps) (next_memory_region R C a w)
  unfolding next_memory_region take_response
  next_frees a w h =
      allocation.frees (C.get_next_memory_region a w).0.2 ps (C.get_next_memory_region a w).1
        (responds.live-next a w ∙ ap (λ t. (C.get_next_memory_region a w).0.2 ∷ t) h)

  copy_frees :
      (a n : ℕ) (w : R.World)
      → allocation.live w ≡ ps
      → Holds (λ (v : Copied × R.World). allocation.live v.1 ≡ ps) (copy_memory R C a n w)
  unfolding copy_memory take_response
  copy_frees a zero w h = tt
  copy_frees a (suc m) w h =
      allocation.frees (C.copy_process_memory a (suc m) w).0.2 ps
        (C.copy_process_memory a (suc m) w).1
        (responds.live-copy a (suc m) w ∙ ap (λ t. (C.copy_process_memory a (suc m) w).0.2 ∷ t) h)

  pub c_platform-Keeps : Keeps (c_platform R C) (λ w. allocation.live w ≡ ps)
  c_platform-Keeps = record { next = next_frees; copy = copy_frees }

-- ===== src/Memaccess/Linux/Files.antt =====
-- The files that `nextMemoryRegion` and `copyMemory` leave open.
use masche.Prelude.{ℕ, ◌≡◌, ◌∙◌, ap, List, ◌∷◌, Bytes, ltb, ◌^◌, Bool-cases, inl, inr}
use masche.Go.{Error, Result-cases, ok, err}
use masche.Go.Lines.{lines}
use masche.Maps.{maps_file_path_from_pid, mem_file_path_from_pid}
use masche.System.{System}
use masche.Memaccess.Region.{Found, Copied}
use masche.Memaccess.Linux.{scan_maps, next_memory_region, copy_memory, linux}
use masche.Memaccess.Walk.Keeps.{Holds, Holds-all, Holds-bind, Keeps}

-- Which files are open.
pub record Files (sys : System) : Type 0 where
  pub opened : sys.World → List sys.File
  pub opened-ok :
      (path : Bytes) (f : sys.File) (w w1 : sys.World)
      → sys.open_file path w ≡ (ok f, w1)
      → opened w1 ≡ f ∷ opened w
  pub opened-err :
      (path : Bytes) (e : Error) (w w1 : sys.World)
      → sys.open_file path w ≡ (err e, w1)
      → opened w1 ≡ opened w
  pub opened-contents : (f : sys.File) (w : sys.World) → opened (sys.contents f w).1 ≡ opened w
  pub opened-read_at :
      (f : sys.File) (a n : ℕ) (w : sys.World) → opened (sys.read_at f a n w).1 ≡ opened w
  pub opened-close :
      (f : sys.File) (fs : List sys.File) (w : sys.World)
      → opened w ≡ f ∷ fs
      → opened (sys.close f w) ≡ fs

module _ {sys : System} (files : Files sys) (pid : ℕ) (fs : List sys.File) where
  open files use {opened}

  next_closes :
      (a : ℕ) (w : sys.World)
      → opened w ≡ fs
      → Holds (λ (v : Found × sys.World). opened v.1 ≡ fs) (next_memory_region sys pid a w)
  unfolding next_memory_region
  next_closes a w h =
      let path = maps_file_path_from_pid pid in
      let w1 = (sys.open_file path w).1 in
      elim (Result-cases (sys.open_file path w).0) [
        | inr (e, k) ↦
            rw (next_memory_region, k) (files.opened-err path e w w1 (ap (λ r. (r, w1)) k) ∙ h)
        | inl (f, k) ↦
            let w2 = (sys.contents f w1).1 in
            let there : opened w2 ≡ f ∷ fs =
              files.opened-contents f w1
              ∙ (files.opened-ok path f w w1 (ap (λ r. (r, w1)) k) ∙ ap (λ t. f ∷ t) h) in
            rw (next_memory_region, k)
              (Holds-bind (λ r. Unit {0}) _ (scan_maps a (lines (sys.contents f w1).0.bytes)) _
                (Holds-all (scan_maps a (lines (sys.contents f w1).0.bytes)))
                (λ r k. files.opened-close f fs w2 there))
      ]

  copy_closes :
      (a n : ℕ) (w : sys.World)
      → opened w ≡ fs
      → Holds (λ (v : Copied × sys.World). opened v.1 ≡ fs) (copy_memory sys pid a n w)
  unfolding copy_memory
  copy_closes a n w h =
      let path = mem_file_path_from_pid pid in
      let w1 = (sys.open_file path w).1 in
      elim (Result-cases (sys.open_file path w).0) [
        | inr (e, k) ↦ rw (copy_memory, k) (files.opened-err path e w w1 (ap (λ r. (r, w1)) k) ∙ h)
        | inl (f, k) ↦
            let there : opened w1 ≡ f ∷ fs =
              files.opened-ok path f w w1 (ap (λ r. (r, w1)) k) ∙ ap (λ t. f ∷ t) h in
            elim (Bool-cases (ltb a (2 ^ 63))) [
              | inl e ↦
                  rw (copy_memory, k, e)
                    (files.opened-close f fs (sys.read_at f a n w1).1
                      (files.opened-read_at f a n w1 ∙ there))
              | inr e ↦ rw (copy_memory, k, e) (files.opened-close f fs w1 there)
            ]
      ]

  pub linux-Keeps : Keeps (linux sys pid) (λ w. opened w ≡ fs)
  linux-Keeps = record { next = next_closes; copy = copy_closes }

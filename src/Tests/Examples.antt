-- ===== src/Tests/Examples.antt =====
-- A run of the example programs: the processes that have a library.
use masche.Prelude.{◌≡◌, refl, ◌==◌, Bool, [], ◌∷◌, none, some, codes, if◌then◌else◌, ℕ}
use masche.Go.{no_heading}
use masche.Listlibs.{Libraries}
use masche.Examples.Listlibs.{find_proc_with_lib}
use masche.Examples.Listlibs.Collects.{Listing, find_proc_with_lib_lem}
use masche.Tests.Processes.{host}

-- The library of 7 matches, and the libraries of 12 cannot be listed.
abbrev libraries : ℕ → Libraries
libraries p =
    if p == 12
    then record { libraries = []; harderror = some (no_heading []); softerrors = [] }
    else record {
      libraries = if p == 7 then codes "/lib/b.so" ∷ [] else [];
      harderror = none;
      softerrors = [];
    }

abbrev listing : Listing host (λ p w. (libraries p, w))
listing = record { libraries_of = libraries; libraries_stay = λ p w. refl }

abbrev same : ℕ → ℕ → Bool
same p q = p == q

-- 3 has no such library, and 7 one.
find_proc_with_lib_lem_example :
    (find_proc_with_lib host same (λ p w. (libraries p, w)) (3 ∷ 7 ∷ []) []).0 ≡ record {
      matches = λ q. if same 7 q then some (codes "/lib/b.so" ∷ []) else none;
      harderror = none;
      softerrors = [];
    }
find_proc_with_lib_lem_example = find_proc_with_lib_lem same listing (3 ∷ 7 ∷ []) []

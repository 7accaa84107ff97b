-- ===== src/Process/Linux/Listing.antt =====
-- The processes of a system: the directory /proc, and what `OpenAll` makes of it.
use masche.Prelude.{
  ℕ, ◌^◌, ◌<◌, ◌≡◌, refl, Bool, true, false, List, [], ◌∷◌, none, Bytes, codes, arith, keep, All,
  map, ap, if◌then◌else◌, inl, inr,
}
use masche.Go.{Error, Result, Result-cases, ok, err, open_failed, permission_denied}
use masche.Go.Int.{ℤ, pos, uint}
use masche.Go.Number.{decimal}
use masche.Go.Number.Decimal.Print.{atoi-decimal}
use masche.Maps.{mem_file_path_from_pid}
use masche.System.{System}
use masche.Process.{Opened, sort, open_all}
use masche.Process.Opening.{Answers, processes_of, errors_of, open_all_lem}
use masche.Process.Linux.{pids_of, get_all_pids, open_from_pid, linux_host}

abbrev pub is_ok {ℓ} : {A : Type ℓ} → Result A → Bool
is_ok (ok a) = true
is_ok (err e) = false

-- What `OpenAll` reports of the pids whose memory it may not read.
unfoldable pub refused : (ℤ → Bool) → List ℤ → List Error
refused can_open [] = []
refused can_open (pid ∷ pids) =
    let rest = refused can_open pids in
    if can_open pid then rest else open_failed pid (permission_denied pid) ∷ rest

module _ (sys : System) (can_open : ℤ → Bool) where
  module _
      (opens : (pid : ℤ) (w : sys.World)
        → is_ok (sys.open_file (mem_file_path_from_pid (uint pid)) w).0 ≡ can_open pid) where
    answer : ℤ → Opened ℤ
    answer pid = record {
      process = if can_open pid then ok pid else err (permission_denied pid);
      softerrors = [];
    }

    answer_stays : (pid : ℤ) (w : sys.World) → (open_from_pid sys pid w).0 ≡ answer pid
    unfolding answer open_from_pid
    answer_stays pid w =
        elim (Result-cases (sys.open_file (mem_file_path_from_pid (uint pid)) w).0) [
          | inl (file, e) ↦ ground (arith, opens pid w)
          | inr (x, e) ↦ ground (arith, opens pid w)
        ]

    book : Answers (linux_host sys)
    book = record { answer = answer; answer_stays = answer_stays }

    processes_of-keep : (pids : List ℤ) → processes_of book pids ≡ keep can_open pids
    unfolding processes_of keep book answer
    processes_of-keep [] = refl
    processes_of-keep (pid ∷ pids) = ground (arith, processes_of-keep pids)

    errors_of-refused : (pids : List ℤ) → errors_of book pids ≡ refused can_open pids
    unfolding errors_of refused book answer
    errors_of-refused [] = refl
    errors_of-refused (pid ∷ pids) = ground (arith, errors_of-refused pids)

    listed_lem :
        (names : List Bytes) (w w1 : sys.World)
        → sys.read_dir (codes "/proc/") w ≡ (ok names, w1)
        → get_all_pids sys w
          ≡ (record { pids = pids_of names; harderror = none; softerrors = [] }, w1)
    unfolding get_all_pids
    listed_lem names w w1 reads = ground (arith, reads)

    -- If /proc is listed, and whether a process's memory file opens depends on its pid only,
    -- `OpenAll` on Linux returns the processes of the names that `Atoi` accepts and whose file
    -- opens, in ascending order of the pids, with no hard error, and one soft error for each of the
    -- others, in the same order.
    pub linux-open_all :
        (names : List Bytes) (w w1 : sys.World)
        → sys.read_dir (codes "/proc/") w ≡ (ok names, w1)
        → (open_all (linux_host sys) w).0 ≡ record {
          processes = keep can_open (sort (pids_of names));
          harderror = none;
          softerrors = refused can_open (sort (pids_of names));
        }
    linux-open_all names w w1 reads =
        let e = listed_lem names w w1 reads in
        let opened = open_all_lem book w (rw e refl) in
        rw (e, processes_of-keep (sort (pids_of names)), errors_of-refused (sort (pids_of names)))
          at opened

-- For pids below 2 ^ 63, the pids that `getAllPids` reads from the names that are their decimal
-- numbers are the pids, in order.
pub pids_of-decimal :
    (pids : List ℕ) → All (λ n. n < 2 ^ 63) pids → pids_of (map decimal pids) ≡ map pos pids
unfolding pids_of
pids_of-decimal [] h = refl
pids_of-decimal (n ∷ pids) (h, hs) =
    rw (atoi-decimal n h, pids_of) (ap (λ t. pos n ∷ t) (pids_of-decimal pids hs))

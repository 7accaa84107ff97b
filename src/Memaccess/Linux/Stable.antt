-- ===== src/Memaccess/Linux/Stable.antt =====
-- The Linux files over a process whose maps file and memory do not change.
use masche.Prelude.{
  ℕ, ◌+◌, ◌-◌, ◌≤◌, ◌<◌, ◌^◌, ◌≡◌, refl, List, [], ◌∷◌, ◌++◌, none, some, Bytes, bytes_eq, leb,
  if◌then◌else◌, All, arith, inl, inr, ap, ◌∙◌,
}
use masche.Go.{ok, done, sub64}
use masche.Go.Lines.{newline, lines, lines-append, IsLine}
use masche.Maps.{maps_file_path_from_pid, mem_file_path_from_pid, split_maps_file_entry}
use masche.Maps.Split.{MapsLine, IsMapsLine, render, split-render}
use masche.Maps.Limits.{Limits, parse_maps_file_memory_limits_iff}
use masche.System.{System}
use masche.Memaccess.Region.{Access, MemoryRegion}
use masche.Memaccess.Image.{
  end_of, IsLayout, after, first, found, copied, read, length-read, HoldsAt, IsStable,
}
use masche.Memaccess.Linux.{
  vsyscall, access_of, LineTurn, skip, yield, region_turn, limits_turn, line_turn, scan_maps,
  next_memory_region, copy_memory, linux,
}

-- A line of the maps file, with the numbers and the access that it spells.
pub record Mapping : Type 0 where
  pub line : MapsLine
  pub start : ℕ
  pub end : ℕ
  pub access : Access

pub record IsMapping (m : Mapping) : Type 0 where
  pub fields_ok : IsMapsLine m.line
  pub limits_ok : Limits m.line.limits m.start m.end
  pub access_ok : access_of m.line.perms ≡ some m.access
  pub line_ok : IsLine (render m.line)
  pub in_order : m.start ≤ m.end

abbrev pub region_of : Mapping → MemoryRegion
region_of m = record {
  address = m.start;
  size = m.end - m.start;
  access = m.access;
  kind = m.line.path;
}

-- The page of the kernel is no region.
unfoldable pub regions_of : List Mapping → List MemoryRegion
regions_of [] = []
regions_of (m ∷ ms) =
    let rest = regions_of ms in if bytes_eq m.line.path vsyscall then rest else region_of m ∷ rest

unfoldable pub maps_text : List Mapping → Bytes
maps_text [] = []
maps_text (m ∷ ms) = render m.line ++ newline ∷ maps_text ms

unfoldable pub maps_lines : List Mapping → List Bytes
maps_lines [] = []
maps_lines (m ∷ ms) = render m.line ∷ maps_lines ms

pub lines-maps_text : (ms : List Mapping) → All IsMapping ms → lines (maps_text ms) ≡ maps_lines ms
unfolding maps_text maps_lines
lines-maps_text [] h = unfold lines in refl
lines-maps_text (m ∷ ms) (h, hs) =
    lines-append (render m.line) (maps_text ms) h.line_ok
    ∙ ap (λ t. render m.line ∷ t) (lines-maps_text ms hs)

-- What the loop does at a well-formed line.
unfoldable pub turn_of : ℕ → Mapping → LineTurn
turn_of a m =
    if bytes_eq m.line.path vsyscall
    then skip
    else if leb m.end a
    then skip
    else yield (region_of m)

pub line_turn-render :
    (a : ℕ) (m : Mapping)
    → IsMapping m
    → line_turn a (render m.line) (split_maps_file_entry (render m.line)) ≡ turn_of a m
unfolding line_turn turn_of
line_turn-render a m h =
    let sizes : sub64 m.end m.start ≡ m.end - m.start =
      omega (arith, h.limits_ok.high_value.2, h.in_order) in
    rw
      (
        split-render m.line h.fields_ok,
        line_turn,
        (parse_maps_file_memory_limits_iff m.line.limits m.start m.end).1 h.limits_ok,
      )
      (unfold limits_turn region_turn in rw (h.access_ok, sizes))

pub scan_maps_lem :
    (a : ℕ) (ms : List Mapping)
    → All IsMapping ms
    → scan_maps a (maps_lines ms) ≡ done (found (first (after a (regions_of ms))))
unfolding scan_maps maps_lines regions_of after first turn_of
scan_maps_lem a [] h = refl
scan_maps_lem a (m ∷ ms) (h, hs) =
    ground (arith, line_turn-render a m h, scan_maps_lem a ms hs, h.in_order)

-- The system shows the process `pid` with these lines in its maps file and these bytes in its mem
-- file, and no call changes that: the files open, the maps file reads as the lines, and `ReadAt`
-- fills its buffer wherever the memory is readable.
pub record Shows (sys : System) (pid : ℕ) (ms : List Mapping) (memory : ℕ → ℕ) : Type 0 where
  pub maps_file : sys.File
  pub mem_file : sys.File
  pub maps_opens :
      (w : sys.World) → sys.open_file (maps_file_path_from_pid pid) w ≡ (ok maps_file, w)
  pub maps_reads :
      (w : sys.World)
      → sys.contents maps_file w ≡ (record { bytes = maps_text ms; error = none }, w)
  pub mem_opens : (w : sys.World) → sys.open_file (mem_file_path_from_pid pid) w ≡ (ok mem_file, w)
  pub mem_reads :
      (a n : ℕ) (w : sys.World)
      → ((x : ℕ) → a ≤ x → x < a + n → HoldsAt (regions_of ms) x)
      → sys.read_at mem_file a n w ≡ (record { bytes = read memory a n; error = none }, w)
  pub closes : (file : sys.File) (w : sys.World) → sys.close file w ≡ w

-- Regions of user space end at 2 ^ 63 at the latest.
abbrev pub InUserSpace : List MemoryRegion → Type 0
InUserSpace = All (λ r. end_of r ≤ 2 ^ 63)

HoldsAt-lt : (rs : List MemoryRegion) (x : ℕ) → InUserSpace rs → HoldsAt rs x → x < 2 ^ 63
HoldsAt-lt [] x u h = absurd h
HoldsAt-lt (r ∷ rs) x (u, us) (inl h) = omega (arith, h.2)
HoldsAt-lt (r ∷ rs) x (u, us) (inr h) = HoldsAt-lt rs x us h

module _ (sys : System) (pid : ℕ) (ms : List Mapping) (memory : ℕ → ℕ)
    (sh : Shows sys pid ms memory) where
  -- The next region, also where one begins at 0.
  pub linux-next :
      All IsMapping ms
      → (a : ℕ) (w : sys.World)
      → next_memory_region sys pid a w ≡ done (found (first (after a (regions_of ms))), w)
  unfolding next_memory_region
  linux-next ok_lines a w = ground (
    arith,
    sh.maps_opens w,
    sh.maps_reads w,
    sh.closes sh.maps_file w,
    lines-maps_text ms ok_lines,
    scan_maps_lem a ms ok_lines,
  )

  pub linux-copies :
      InUserSpace (regions_of ms)
      → (a n : ℕ) (w : sys.World) → 0 < n
      → ((x : ℕ) → a ≤ x → x < a + n → HoldsAt (regions_of ms) x)
      → copy_memory sys pid a n w ≡ done (copied (read memory a n), w)
  unfolding copy_memory
  linux-copies user a n w p c = ground (
    arith,
    sh.mem_opens w,
    sh.mem_reads a n w c,
    sh.closes sh.mem_file w,
    length-read memory n a,
    HoldsAt-lt (regions_of ms) a user (c a (omega arith) (omega arith)),
  )

  -- If a maps file of well-formed lines and the memory of a process do not change, and its regions
  -- begin at 1 or later, have bytes, go up without overlap and end in user space, then the Linux
  -- files find the first region that does not end at or before an address, the page `[vsyscall]`
  -- left out, and copy the bytes wherever the memory is readable.
  pub linux-IsStable :
      All IsMapping ms
      → IsLayout 1 (regions_of ms)
      → InUserSpace (regions_of ms)
      → IsStable (linux sys pid) (regions_of ms) memory
  linux-IsStable ok_lines layout user = record {
    lists = record { layout = layout; next = linux-next ok_lines };
    copy = linux-copies user;
  }

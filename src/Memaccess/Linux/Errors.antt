-- ===== src/Memaccess/Linux/Errors.antt =====
-- What `nextMemoryRegion` makes of a line that is no maps line, and when `copyMemory` copies.
use masche.Prelude.{
  ℕ, ◌<◌, ◌^◌, ◌≡◌, ◌≢◌, ◌↔◌, refl, List, [], ◌∷◌, ◌++◌, Option, none, some, Bytes, ltb, length,
  All, arith, append_assoc, Bool-cases, Option-cases, inl, inr,
}
use masche.Go.{Error, ok, done, negative_offset, unrecognised_line}
use masche.Go.Strings.{count}
use masche.Go.Lines.{newline, lines, lines-append, IsLine}
use masche.Maps.{maps_file_path_from_pid, space, mem_file_path_from_pid, split_maps_file_entry}
use masche.Maps.Split.{render, length-split_maps_file_entry}
use masche.System.{System, Read}
use masche.Memaccess.Region.{MemoryRegion, no_region_available, Found, Copied}
use masche.Memaccess.Image.{after, found}
use masche.Memaccess.Linux.{
  fail, line_turn, scan_maps, copied_of, copy_memory, unread, next_memory_region,
}
use masche.Memaccess.Linux.Stable.{
  Mapping, IsMapping, regions_of, maps_text, turn_of, line_turn-render,
}

line_turn-other :
    (a : ℕ) (line : Bytes) (items : List Bytes)
    → length items ≢ 6
    → line_turn a line items ≡ fail (unrecognised_line line)
unfolding line_turn
line_turn-other a line [] h = refl
line_turn-other a line (_ ∷ []) h = refl
line_turn-other a line (_ ∷ _ ∷ []) h = refl
line_turn-other a line (_ ∷ _ ∷ _ ∷ []) h = refl
line_turn-other a line (_ ∷ _ ∷ _ ∷ _ ∷ []) h = refl
line_turn-other a line (_ ∷ _ ∷ _ ∷ _ ∷ _ ∷ []) h = refl
line_turn-other a line (_ ∷ _ ∷ _ ∷ _ ∷ _ ∷ _ ∷ []) h = absurd (h refl)
line_turn-other a line (_ ∷ _ ∷ _ ∷ _ ∷ _ ∷ _ ∷ _ ∷ items) h = refl

-- The region in front of a bad line, or the error for it.
unfoldable pub found_or : Error → List MemoryRegion → Found
found_or e [] = record { region = no_region_available; harderror = some e; softerrors = [] }
found_or e (r ∷ rs) = found r

scan_maps_bad :
    (a : ℕ) (bad : Bytes) (rest : Bytes)
    → IsLine bad
    → count space bad < 4
    → (ms : List Mapping) → All IsMapping ms
    → scan_maps a (lines (maps_text ms ++ (bad ++ newline ∷ rest)))
      ≡ done (found_or (unrecognised_line bad) (after a (regions_of ms)))
unfolding scan_maps maps_text regions_of after found_or turn_of
scan_maps_bad a bad rest l c [] h =
    let short : length (split_maps_file_entry bad) ≢ 6 =
      λ e. omega (arith, c, e, length-split_maps_file_entry bad) in
    rw (lines-append bad rest l, scan_maps, line_turn-other a bad (split_maps_file_entry bad) short)
scan_maps_bad a bad rest l c (m ∷ ms) (h, hs) =
    let more = maps_text ms ++ (bad ++ newline ∷ rest) in
    rw
      (
        append_assoc (render m.line) (newline ∷ maps_text ms) (bad ++ newline ∷ rest),
        lines-append (render m.line) more h.line_ok,
      )
      (ground (arith, line_turn-render a m h, h.in_order, scan_maps_bad a bad rest l c ms hs))

module _ (sys : System) (pid : ℕ) (file : sys.File) where
  -- If well-formed lines of a maps file are followed by a line, shorter than 65536 bytes, with
  -- fewer than four spaces, `nextMemoryRegion` returns the first region that does not end at or
  -- before the address if a line in front of the bad one has it, and else the error that names the
  -- bad line. It closes the file in both cases.
  pub next_memory_region_bad :
      (a : ℕ) (ms : List Mapping) (bad rest : Bytes) (read_error : Option Error)
      (w w1 w2 : sys.World)
      → sys.open_file (maps_file_path_from_pid pid) w ≡ (ok file, w1)
      → sys.contents file w1
        ≡ (record { bytes = maps_text ms ++ (bad ++ newline ∷ rest); error = read_error }, w2)
      → All IsMapping ms
      → IsLine bad
      → count space bad < 4
      → next_memory_region sys pid a w
        ≡ done (found_or (unrecognised_line bad) (after a (regions_of ms)), sys.close file w2)
  unfolding next_memory_region
  next_memory_region_bad a ms bad rest read_error w w1 w2 opens reads h l c =
      ground (arith, opens, reads, scan_maps_bad a bad rest l c ms h)

  -- What `ReadAt` has to return.
  abbrev IsFull : ℕ → ℕ → Read → Type 0
  IsFull address n r = (address < 2 ^ 63) × (r.error ≡ none) × (length r.bytes ≡ n)

  copied_of-none :
      (address n : ℕ) (r : Read)
      → ((copied_of sys pid address n r).harderror ≡ none)
        ↔ ((r.error ≡ none) × (length r.bytes ≡ n))
  unfolding copied_of
  copied_of-none address n r = elim (Option-cases r.error) [
    | inl e ↦ (λ h. (e, ground arith), λ h. ground arith)
    | inr (x, e) ↦ (λ h. absurd (ground arith), λ h. absurd (ground arith))
  ]

  -- If the mem file opens, `copyMemory` returns and closes the file, and it has no hard error
  -- exactly where the address is below 2 ^ 63 and `ReadAt` returns all the bytes and no error.
  pub copy_memory_iff :
      (address n : ℕ) (w w1 : sys.World)
      → sys.open_file (mem_file_path_from_pid pid) w ≡ (ok file, w1)
      → (c : Copied) × (w2 : sys.World) × (copy_memory sys pid address n w
          ≡ done (c, sys.close file w2))
        × ((c.harderror ≡ none) ↔ IsFull address n (sys.read_at file address n w1).0)
  unfolding copy_memory
  copy_memory_iff address n w w1 opens = elim (Bool-cases (ltb address (2 ^ 63))) [
    | inl low ↦
        let r = sys.read_at file address n w1 in
        (
          copied_of sys pid address n r.0,
          r.1,
          ground (arith, opens),
          (
            λ h.
                let (no_error, all) = (copied_of-none address n r.0).0 h in
                (ground arith, no_error, all),
            λ h. (copied_of-none address n r.0).1 (h.1, h.2),
          ),
        )
    | inr high ↦ (
      unread sys pid address n negative_offset,
      w1,
      ground (arith, opens),
      (λ h. absurd (cc), λ h. absurd (ground (arith, h.0))),
    )
  ]

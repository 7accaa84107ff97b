-- ===== src/Go/Strings/Space.antt =====
-- Package strings: `TrimSpace` and `Fields`, of texts as their UTF-8 bytes, and the lines that `ReadString('\n')` of package bufio returns.
use masche.Prelude.{
  not, ◌-◌, ℕ, zero, suc, ap, ◌∙◌, length, ◌≤◌, replicate, ◌≡◌, refl, ◌≢◌, Bool, true, false, ◌&&◌,
  ◌||◌, List, [], ◌∷◌, ◌++◌, append_assoc, append-nil, arith, Bytes, ◌==◌, leb, if◌then◌else◌, All,
  Bool-cases, inl, inr,
}
use masche.Go.Strings.{Lacks}

abbrev newline : ℕ
newline = 10

-- The white space of ASCII.
unfoldable pub is_space : ℕ → Bool
is_space c = c == b' ' || (leb 9 c && leb c 13)

abbrev third_of_e2 : ℕ → ℕ → Bool
third_of_e2 d e =
    (d == 0x80 && ((leb 0x80 e && leb e 0x8a) || (e == 0xa8 || (e == 0xa9 || e == 0xaf))))
    || (d == 0x81 && e == 0x9f)

-- Two and three bytes that are the UTF-8 of a white space: U+0085 and U+00A0, and U+1680, U+2000 to
-- U+200A, U+2028, U+2029, U+202F, U+205F and U+3000.
unfoldable pub is_space2 : ℕ → ℕ → Bool
is_space2 c d = c == 0xc2 && (d == 0x85 || d == 0xa0)

unfoldable pub is_space3 : ℕ → ℕ → ℕ → Bool
is_space3 c d e =
    (c == 0xe1 && (d == 0x9a && e == 0x80))
    || ((c == 0xe2 && third_of_e2 d e) || (c == 0xe3 && (d == 0x80 && e == 0x80)))

-- The bytes of the white space, by `unicode.IsSpace`, that a text begins with, or 0. Their first
-- byte is never a later byte of another character, so this holds at each byte of a text.
unfoldable pub space_width : Bytes → ℕ
unfolding is_space is_space2 is_space3
space_width [] = 0
space_width (c ∷ []) = if is_space c then 1 else 0
space_width (c ∷ d ∷ []) = if is_space c then 1 else if is_space2 c d then 2 else 0
space_width (c ∷ d ∷ e ∷ s) =
    if is_space c then 1 else if is_space2 c d then 2 else if is_space3 c d e then 3 else 0

-- Without the bytes of a space that is begun and the spaces behind it.
unfoldable pub skip_from : ℕ → Bytes → Bytes
unfolding space_width
skip_from n [] = []
skip_from (suc n) (c ∷ s) = skip_from n s
skip_from zero (c ∷ s) = elim (space_width (c ∷ s)) [ zero ↦ c ∷ s | suc n ↦ skip_from n s ]

unfoldable pub skip_space : Bytes → Bytes
unfolding skip_from
skip_space s = skip_from 0 s

abbrev pub is_empty : Bytes → Bool
is_empty [] = true
is_empty (c ∷ s) = false

-- Up to where there is only white space.
unfoldable pub trim_end : Bytes → Bytes
unfolding skip_space
trim_end [] = []
trim_end (c ∷ s) = elim (is_empty (skip_space (c ∷ s))) [ true ↦ [] | false ↦ c ∷ trim_end s ]

unfoldable pub trim_space : Bytes → Bytes
unfolding trim_end
trim_space s = trim_end (skip_space s)

abbrev ended_field : Bytes → List Bytes → List Bytes
ended_field [] fs = fs
ended_field (b ∷ cur) fs = (b ∷ cur) ∷ fs

-- The fields of the rest of a text, behind bytes of a space that is begun and the part of a field.
unfoldable pub fields_from : ℕ → Bytes → Bytes → List Bytes
unfolding space_width
fields_from n [] cur = ended_field cur []
fields_from (suc n) (c ∷ s) cur = fields_from n s cur
fields_from zero (c ∷ s) cur = elim (space_width (c ∷ s)) [
  | zero ↦ fields_from 0 s (cur ++ c ∷ [])
  | suc n ↦ ended_field cur (fields_from n s [])
]

unfoldable pub fields : Bytes → List Bytes
unfolding fields_from
fields s = fields_from 0 s []

-- The texts up to a newline and with it; a last line without one comes with `io.EOF`.
unfoldable pub ended_lines : Bytes → Bytes → List Bytes
ended_lines [] cur = []
ended_lines (c ∷ s) cur = elim (c == newline) [
  | true ↦ (cur ++ c ∷ []) ∷ ended_lines s []
  | false ↦ ended_lines s (cur ++ c ∷ [])
]

-- A byte that a white space can begin with.
unfoldable pub is_lead : ℕ → Bool
unfolding is_space
is_lead c = is_space c || (c == 0xc2 || (c == 0xe1 || (c == 0xe2 || c == 0xe3)))

abbrev pub NoSpace : Bytes → Type 0
NoSpace = All (λ c. is_lead c ≡ false)

-- A text that is empty or begins with a space.
abbrev pub IsApart : Bytes → Type 0
IsApart [] = Unit
IsApart (c ∷ s) = is_space c ≡ true

space_width-lead : (c : ℕ) (s : Bytes) → is_lead c ≡ false → space_width (c ∷ s) ≡ 0
unfolding space_width is_lead is_space2 is_space3
space_width-lead c [] h = ground arith
space_width-lead c (d ∷ []) h = ground arith
space_width-lead c (d ∷ e ∷ s) h = ground arith

pub space_width-space : (c : ℕ) (s : Bytes) → is_space c ≡ true → space_width (c ∷ s) ≡ 1
unfolding space_width
space_width-space c [] h = ground arith
space_width-space c (d ∷ []) h = ground arith
space_width-space c (d ∷ e ∷ s) h = ground arith

pub skip_space-none : (c : ℕ) (s : Bytes) → space_width (c ∷ s) ≡ 0 → skip_space (c ∷ s) ≡ c ∷ s
unfolding skip_space skip_from
skip_space-none c s h = ground (arith, h)

pub skip_space-true : (c : ℕ) (s : Bytes) → is_space c ≡ true → skip_space (c ∷ s) ≡ skip_space s
unfolding skip_space skip_from
skip_space-true c s h = ground (arith, space_width-space c s h)

pub trim_end-keeps :
    (c d : ℕ) (s t : Bytes) → skip_space (c ∷ s) ≡ d ∷ t → trim_end (c ∷ s) ≡ c ∷ trim_end s
unfolding trim_end
trim_end-keeps c d s t h = ground (arith, h)

pub trim_end-append : (v t : Bytes) → NoSpace v → trim_end (v ++ t) ≡ v ++ trim_end t
trim_end-append [] t h = refl
trim_end-append (c ∷ v) t (h, hs) =
    trim_end-keeps c c (v ++ t) (v ++ t)
      (skip_space-none c (v ++ t) (space_width-lead c (v ++ t) h))
    ∙ ap (λ x. c ∷ x) (trim_end-append v t hs)

pub trim_end-IsApart : (t : Bytes) → IsApart t → IsApart (trim_end t)
unfolding trim_end
trim_end-IsApart [] h = tt
trim_end-IsApart (c ∷ t) h = elim (Bool-cases (is_empty (skip_space (c ∷ t)))) [
  | inl e ↦ rw (trim_end, e, IsApart) tt
  | inr e ↦ rw (trim_end, e, IsApart) h
]

abbrev pub first_or : Bytes → List Bytes → Bytes
first_or s [] = s
first_or s (f ∷ fs) = f

fields_from-apart :
    (s t cur : Bytes) (b : ℕ) → IsApart t → first_or s (fields_from 0 t (b ∷ cur)) ≡ b ∷ cur
unfolding fields_from
fields_from-apart s [] cur b h = refl
fields_from-apart s (c ∷ t) cur b h = ground (arith, space_width-space c t h)

fields_from-append :
    (s v t cur : Bytes) (b : ℕ)
    → NoSpace v
    → IsApart t
    → first_or s (fields_from 0 (v ++ t) (b ∷ cur)) ≡ b ∷ (cur ++ v)
unfolding fields_from
fields_from-append s [] t cur b h a = rw (append-nil cur) (fields_from-apart s t cur b a)
fields_from-append s (c ∷ v) t cur b (h, hs) a = ground (
  arith,
  space_width-lead c (v ++ t) h,
  append_assoc cur (c ∷ []) v,
  fields_from-append s v t (cur ++ c ∷ []) b hs a,
)

-- The first field of a text.
pub fields-append :
    (s v t : Bytes) → v ≢ [] → NoSpace v → IsApart t → first_or s (fields (v ++ t)) ≡ v
unfolding fields fields_from
fields-append s [] t ne h a = absurd (ne refl)
fields-append s (c ∷ v) t ne (h, hs) a =
    ground (arith, space_width-lead c (v ++ t) h, fields_from-append s v t [] c hs a)

skip_space-append : (v t : Bytes) → v ≢ [] → NoSpace v → skip_space (v ++ t) ≡ v ++ t
skip_space-append [] t ne h = absurd (ne refl)
skip_space-append (c ∷ v) t ne (h, hs) = skip_space-none c (v ++ t) (space_width-lead c (v ++ t) h)

-- The first field of a trimmed text that begins with one space.
pub trim_space-first :
    (s v t : Bytes) (c : ℕ)
    → is_space c ≡ true
    → v ≢ []
    → NoSpace v
    → IsApart t
    → first_or s (fields (trim_space (c ∷ (v ++ t)))) ≡ v
unfolding trim_space
trim_space-first s v t c h ne vs a =
    rw (skip_space-true c (v ++ t) h, skip_space-append v t ne vs, trim_end-append v t vs)
      (fields-append s v (trim_end t) ne vs (trim_end-IsApart t a))

-- A byte that is no space and no later byte of one.
unfoldable pub is_plain : ℕ → Bool
unfolding is_lead
is_plain c = not (is_lead c) && not (leb 0x80 c)

width-plain :
    (b : ℕ) (x y : Bytes) (c : ℕ)
    → is_plain c ≡ true
    → space_width (b ∷ (x ++ c ∷ y)) ≤ suc (length x)
unfolding space_width is_plain is_lead is_space2 is_space3
width-plain b [] [] c h = ground arith
width-plain b [] (e ∷ y) c h = ground arith
width-plain b (d ∷ []) y c h = ground arith
width-plain b (d ∷ e ∷ x) y c h = ground arith

-- A plain byte is never a part of a space.
skip_from-plain :
    (n : ℕ) (x y : Bytes) (c : ℕ)
    → is_plain c ≡ true
    → n ≤ length x
    → is_empty (skip_from n (x ++ c ∷ y)) ≡ false
unfolding skip_from is_plain
skip_from-plain (suc n) [] y c h p = absurd (omega arith)
skip_from-plain zero [] y c h p = ground (arith, space_width-lead c y)
skip_from-plain (suc n) (b ∷ x) y c h p = skip_from-plain n x y c h (omega arith)
skip_from-plain zero (b ∷ x) y c h p =
    let all = b ∷ (x ++ c ∷ y) in
    elim (Bool-cases (space_width all == 0)) [
      | inl e ↦ let none_there : space_width all ≡ 0 = ground arith in ground (arith, none_there)
      | inr e ↦
          let k = space_width all - 1 in
          let there : space_width all ≡ suc k = ground arith in
          ground
            (arith, there, skip_from-plain k x y c h (omega (arith, there, width-plain b x y c h)))
    ]

pub width-blanks :
    (b k : ℕ) (x : Bytes) → space_width (b ∷ (x ++ replicate k 32)) ≡ space_width (b ∷ x)
unfolding space_width is_space2 is_space3
width-blanks b zero [] = refl
width-blanks b (suc zero) [] = ground arith
width-blanks b (suc (suc k)) [] = ground arith
width-blanks b zero (d ∷ []) = refl
width-blanks b (suc k) (d ∷ []) = ground arith
width-blanks b k (d ∷ e ∷ x) = refl

skip_from-replicate : (n k : ℕ) → skip_from n (replicate k 32) ≡ []
unfolding skip_from is_space
skip_from-replicate n zero = refl
skip_from-replicate (suc n) (suc k) = skip_from-replicate n k
skip_from-replicate zero (suc k) =
    ground (arith, space_width-space 32 (replicate k 32) refl, skip_from-replicate 0 k)

-- White space in front of blanks.
skip_from-blanks :
    (n k : ℕ) (x : Bytes) → is_empty (skip_from n (x ++ replicate k 32)) ≡ is_empty (skip_from n x)
unfolding skip_from
skip_from-blanks n k [] = ground (arith, skip_from-replicate n k)
skip_from-blanks (suc n) k (b ∷ x) = skip_from-blanks n k x
skip_from-blanks zero k (b ∷ x) = elim (Bool-cases (space_width (b ∷ x) == 0)) [
  | inl e ↦
      let none_there : space_width (b ∷ x) ≡ 0 = ground arith in
      ground (arith, none_there, width-blanks b k x)
  | inr e ↦
      let m = space_width (b ∷ x) - 1 in
      let there : space_width (b ∷ x) ≡ suc m = ground arith in
      ground (arith, there, width-blanks b k x, skip_from-blanks m k x)
]

pub trim_end-blanks : (k : ℕ) → trim_end (replicate k 32) ≡ []
unfolding trim_end skip_space
trim_end-blanks zero = refl
trim_end-blanks (suc k) = ground (arith, skip_from-replicate 0 (suc k))

-- Blanks behind a text are cut.
pub trim_end-replicate : (x : Bytes) (k : ℕ) → trim_end (x ++ replicate k 32) ≡ trim_end x
unfolding trim_end skip_space
trim_end-replicate [] k = trim_end-blanks k
trim_end-replicate (c ∷ x) k = ground (arith, skip_from-blanks 0 k (c ∷ x), trim_end-replicate x k)

-- Up to a plain byte all is kept.
pub trim_end-plain :
    (x y : Bytes) (c : ℕ) → is_plain c ≡ true → trim_end y ≡ y → trim_end (x ++ c ∷ y) ≡ x ++ c ∷ y
unfolding trim_end skip_space
trim_end-plain [] y c h e = ground (arith, skip_from-plain 0 [] y c h (omega arith), e)
trim_end-plain (b ∷ x) y c h e =
    ground (arith, skip_from-plain 0 (b ∷ x) y c h (omega arith), trim_end-plain x y c h e)

pub ended_lines-append :
    (l rest cur : Bytes)
    → Lacks newline l
    → ended_lines (l ++ newline ∷ rest) cur ≡ (cur ++ (l ++ newline ∷ [])) ∷ ended_lines rest []
unfolding ended_lines
ended_lines-append [] rest cur h = refl
ended_lines-append (c ∷ l) rest cur (h, hs) = ground (
  arith,
  ended_lines-append l rest (cur ++ c ∷ []) hs,
  append_assoc cur (c ∷ []) (l ++ newline ∷ []),
)

-- ===== src/Maps/Limits.antt =====
-- What `ParseMapsFileMemoryLimits` accepts, and with which limits.
use masche.Prelude.{
  ℕ, ◌≡◌, refl, ◌↔◌, List, [], ◌∷◌, ◌++◌, arith, Bytes, some, none, Option-cases, inl, inr, ◌+◌,
  ◌*◌,
}
use masche.Go.{Result, ok, err, num_syntax, num_range}
use masche.Go.Strings.{split, split-append, split-Lacks, join, join-split, Lacks}
use masche.Go.Number.{
  Scanned, number, syntax, range, parse_uint, parse_uint-Spells, Spells, value, digit,
}
use masche.Maps.{parse_hex, both, limits_of, parse_maps_file_memory_limits}

-- Two hexadecimal numbers with a dash between them.
pub record Limits (limits : Bytes) (start end : ℕ) : Type 0 where
  pub low : Bytes
  pub high : Bytes
  pub spelled : limits ≡ low ++ b'-' ∷ high
  pub low_value : Spells low start
  pub high_value : Spells high end

parse_hex-Spells : (s : Bytes) (n : ℕ) → parse_hex s ≡ ok n → Spells s n
unfolding parse_hex
parse_hex-Spells s n h = go (parse_uint s) refl h
  where
    go :
        (r : Scanned)
        → parse_uint s ≡ r
        → ◌≡◌ {A = Result ℕ}
            (elim r [ number m ↦ ok m | syntax ↦ err (num_syntax s) | range ↦ err (num_range s) ])
            (ok n)
        → Spells s n
    go (number m) e k = (parse_uint-Spells s n).0 (cc)
    go syntax e k = absurd (cc)
    go range e k = absurd (cc)

pub Spells-parse_hex : (s : Bytes) (n : ℕ) → Spells s n → parse_hex s ≡ ok n
unfolding parse_hex
Spells-parse_hex s n h = rw ((parse_uint-Spells s n).1 h, parse_hex)

digit-dash : digit b'-' ≡ none
unfolding digit
digit-dash = refl

value-Lacks : (s : Bytes) (n r : ℕ) → value n s ≡ some r → Lacks b'-' s
value-Lacks [] n r h = tt
value-Lacks (c ∷ s) n r h = elim (Option-cases (digit c)) [
  | inl e ↦ absurd (ground arith)
  | inr (d, e) ↦ (λ k. ground (arith, digit-dash), value-Lacks s (n * 16 + d) r (ground arith))
]

Limits-parse :
    (limits : Bytes) (start end : ℕ)
    → Limits limits start end
    → parse_maps_file_memory_limits limits ≡ ok (start, end)
unfolding parse_maps_file_memory_limits limits_of both
Limits-parse limits start end h = rw (
  h.spelled,
  split-append h.low h.high b'-' (value-Lacks h.low 0 start h.low_value.1),
  split-Lacks h.high b'-' (value-Lacks h.high 0 end h.high_value.1),
  limits_of,
  Spells-parse_hex h.low start h.low_value,
  Spells-parse_hex h.high end h.high_value,
)

both-eq-ok : (r s : Result ℕ) (a b : ℕ) → both r s ≡ ok (a, b) → (r ≡ ok a) × (s ≡ ok b)
unfolding both
both-eq-ok (ok x) (ok y) a b h = ground arith
both-eq-ok (ok x) (err e) a b h = absurd (cc)
both-eq-ok (err e) s a b h = absurd (cc)

limits_of-Limits :
    (parts : List Bytes) (a b : ℕ) → limits_of parts ≡ ok (a, b) → Limits (join parts b'-') a b
unfolding limits_of join
limits_of-Limits (x ∷ y ∷ []) a b h =
    let (p, q) = both-eq-ok (parse_hex x) (parse_hex y) a b h in
    record {
      low = x;
      high = y;
      spelled = refl;
      low_value = parse_hex-Spells x a p;
      high_value = parse_hex-Spells y b q;
    }
limits_of-Limits _ a b h = absurd (cc)

parse-Limits :
    (limits : Bytes) (start end : ℕ)
    → parse_maps_file_memory_limits limits ≡ ok (start, end)
    → Limits limits start end
unfolding parse_maps_file_memory_limits
parse-Limits limits start end h =
    rw (join-split limits b'-') at (limits_of-Limits (split limits b'-') start end h)

-- `ParseMapsFileMemoryLimits` returns limits exactly for two hexadecimal numbers below 2 ^ 64 that
-- are joined by a dash, and these limits are the values of the two.
pub parse_maps_file_memory_limits_iff :
    (limits : Bytes) (start end : ℕ)
    → (parse_maps_file_memory_limits limits ≡ ok (start, end)) ↔ Limits limits start end
parse_maps_file_memory_limits_iff limits start end =
    (parse-Limits limits start end, Limits-parse limits start end)

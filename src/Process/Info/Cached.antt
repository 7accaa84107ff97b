-- ===== src/Process/Info/Cached.antt =====
-- The cache of field names, which all the goroutines of a program share.
use masche.Prelude.{
  ℕ, ◌==◌, ◌≡◌, refl, [], ◌∷◌, Option, none, some, Bytes, bytes_eq, bytes_eq→eq, if◌then◌else◌, All,
  arith, Option-cases, Bool-cases, inl, inr,
}
use masche.Process.Info.{Field, Cache, lookup, field_for, remember, get_field_name_for_key}

-- Every entry is what the search through the struct's tags gives.
abbrev pub IsCache : Cache → Type 0
IsCache = All (λ (entry : Bytes × Field). field_for entry.0 ≡ some entry.1)

lookup-IsCache :
    (key : Bytes) (cache : Cache) (f : Field)
    → IsCache cache
    → lookup key cache ≡ some f
    → field_for key ≡ some f
unfolding lookup
lookup-IsCache key [] f h e = absurd (cc)
lookup-IsCache key ((k, g) ∷ cache) f (h, hs) e = elim (Bool-cases (bytes_eq k key)) [
  | inl same ↦ ground (arith, bytes_eq→eq k key same)
  | inr other ↦ lookup-IsCache key cache f hs (ground arith)
]

remember-IsCache :
    (key : Bytes) (cache : Cache)
    → IsCache cache
    → ((remember key (field_for key) cache).0 ≡ field_for key)
      × IsCache (remember key (field_for key) cache).1
unfolding remember
remember-IsCache key cache h = elim (Option-cases (field_for key)) [
  | inl e ↦ rw e (refl, h)
  | inr (f, e) ↦ rw e (refl, (e, h))
]

pub get_field_name_for_key-IsCache :
    (key : Bytes) (cache : Cache)
    → IsCache cache
    → ((get_field_name_for_key key cache).0 ≡ field_for key)
      × IsCache (get_field_name_for_key key cache).1
unfolding get_field_name_for_key
get_field_name_for_key-IsCache key cache h = elim (Option-cases (lookup key cache)) [
  | inl e ↦ rw (e, get_field_name_for_key) (remember-IsCache key cache h)
  | inr (f, e) ↦ rw (e, get_field_name_for_key, lookup-IsCache key cache f h e) (refl, h)
]

-- Where a goroutine stands in `getFieldNameForKey`.
pub data At : Type 0 where
  idle : At
  missed : Bytes → At
  returned : Bytes → Option Field → At

-- A step of one goroutine. The read under the read lock is one step, the write under the lock
-- another; the search through the tags in between reads nothing that is shared.
pub data Move (cache : Cache) : At → Cache → At → Type 0 where
  hit :
      {key : Bytes} {f : Field}
      → lookup key cache ≡ some f
      → Move cache idle cache (returned key (some f))
  miss : {key : Bytes} → lookup key cache ≡ none → Move cache idle cache (missed key)
  write :
      {key : Bytes}
      → Move cache
          (missed key)
          (remember key (field_for key) cache).1
          (returned key (remember key (field_for key) cache).0)
  again : {key : Bytes} {result : Option Field} → Move cache (returned key result) cache idle

pub record Shared : Type 0 where
  pub cache : Cache
  pub at : ℕ → At

abbrev pub update : (ℕ → At) → ℕ → At → ℕ → At
update at i p j = if i == j then p else at j

pub data Step (s : Shared) : Shared → Type 0 where
  pick :
      (i : ℕ) {cache : Cache} {p : At}
      → Move s.cache (s.at i) cache p
      → Step s (record { cache = cache; at = update s.at i p })

pub data Reach : Shared → Type 0 where
  start : Reach (record { cache = []; at = λ i. idle })
  next : {s t : Shared} → Reach s → Step s t → Reach t

-- A goroutine that has a result has the right one.
abbrev pub IsRight : At → Type 0
IsRight (returned key result) = result ≡ field_for key
IsRight _ = Unit

Move-IsCache :
    {cache cache' : Cache} {p q : At}
    → Move cache p cache' q
    → IsCache cache
    → IsCache cache' × IsRight q
Move-IsCache {cache} (hit {key} {f} e) h = (h, ground (arith, lookup-IsCache key cache f h e))
Move-IsCache (miss e) h = (h, tt)
Move-IsCache {cache} (write {key}) h =
    let (result, kept) = remember-IsCache key cache h in (kept, result)
Move-IsCache again h = (h, tt)

update-IsRight :
    (at : ℕ → At) (i : ℕ) (p : At)
    → IsRight p
    → ((j : ℕ) → IsRight (at j))
    → (j : ℕ) → IsRight (update at i p j)
update-IsRight at i p h hs j = elim (Bool-cases (i == j)) [
  | inl same ↦ rw same h
  | inr other ↦ rw other (hs j)
]

-- From an empty cache, after any interleaving of the reads under the read lock and the writes under
-- the lock by any number of goroutines, each entry of the cache of field names is what the search
-- through the tags gives, and each goroutine that has returned has the result of that search.
pub Reach-IsCache : {s : Shared} → Reach s → IsCache s.cache × ((i : ℕ) → IsRight (s.at i))
Reach-IsCache start = (tt, λ i. tt)
Reach-IsCache (next {s} r (pick i {cache} {p} m)) =
    let (h, hs) = Reach-IsCache r in
    let (kept, right) = Move-IsCache m h in (kept, update-IsRight s.at i p right hs)

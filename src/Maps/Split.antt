-- ===== src/Maps/Split.antt =====
-- What `SplitMapsFileEntry` makes of a line.
use Prim.Native.Nat.{min}
use masche.Prelude.{
  ℕ, zero, suc, ◌+◌, ◌≡◌, refl, List, [], ◌∷◌, ◌++◌, none, some, arith, Bytes, ◌==◌, length,
  length-append, take, drop, take-length, Option-cases, inl, inr, Bool-cases,
}
use masche.Go.Strings.{index, index-append, trim_left, Lacks, count}
use masche.Maps.{space, split_loop, split_maps_file_entry}

-- A line as proc(5) describes it: five fields, one space behind each, padding, and the path.
pub record MapsLine : Type 0 where
  pub limits : Bytes
  pub perms : Bytes
  pub offset : Bytes
  pub device : Bytes
  pub inode : Bytes
  pub path : Bytes
  pub padding : ℕ

unfoldable pub pad : ℕ → Bytes → Bytes
pad zero s = s
pad (suc n) s = space ∷ pad n s

unfoldable pub render : MapsLine → Bytes
render l =
    l.limits
    ++ space
      ∷ (l.perms
          ++ space
            ∷ (l.offset ++ space ∷ (l.device ++ space ∷ (l.inode ++ space ∷ pad l.padding l.path))))

pub record IsMapsLine (l : MapsLine) : Type 0 where
  pub limits_ok : Lacks space l.limits
  pub perms_ok : Lacks space l.perms
  pub offset_ok : Lacks space l.offset
  pub device_ok : Lacks space l.device
  pub inode_ok : Lacks space l.inode
  pub path_ok : trim_left l.path space ≡ l.path

drop-field : (f rest : Bytes) (c : ℕ) → drop (suc (length f)) (f ++ c ∷ rest) ≡ rest
drop-field [] rest c = refl
drop-field (b ∷ f) rest c = drop-field f rest c

split_loop-field :
    (n : ℕ) (f rest : Bytes) (res : List Bytes)
    → Lacks space f
    → split_loop (suc n) (f ++ space ∷ rest) res ≡ split_loop n rest (res ++ f ∷ [])
unfolding split_loop
split_loop-field n f rest res h =
    rw (index-append f rest space h, split_loop)
      (rw (drop-field f rest space, take-length f (space ∷ rest)))

trim_left-pad : (n : ℕ) (s : Bytes) → trim_left (pad n s) space ≡ trim_left s space
unfolding trim_left pad
trim_left-pad zero s = refl
trim_left-pad (suc n) s = trim_left-pad n s

-- A well-formed line is split into its six fields, whatever its padding and its path.
pub split-render :
    (l : MapsLine)
    → IsMapsLine l
    → split_maps_file_entry (render l)
      ≡ l.limits ∷ l.perms ∷ l.offset ∷ l.device ∷ l.inode ∷ l.path ∷ []
unfolding split_maps_file_entry render split_loop
split-render l h = rw (
  split_loop-field 4 l.limits _ [] h.limits_ok,
  split_loop-field 3 l.perms _ _ h.perms_ok,
  split_loop-field 2 l.offset _ _ h.offset_ok,
  split_loop-field 1 l.device _ _ h.device_ok,
  split_loop-field 0 l.inode _ _ h.inode_ok,
  split_loop,
  trim_left-pad,
  h.path_ok,
)

index-none : (s : Bytes) → index s space ≡ none → count space s ≡ 0
unfolding index count
index-none [] h = refl
index-none (b ∷ s) h = ground (arith, index-none s)

index-some :
    (s : Bytes) (i : ℕ)
    → index s space ≡ some i
    → count space s ≡ suc (count space (drop (suc i) s))
unfolding index count
index-some [] i h = ground arith
index-some (b ∷ s) zero h = elim (Bool-cases (b == space)) [
  | inl e ↦ rw e
  | inr e ↦ elim (Option-cases (index s space)) [
    | inl none_left ↦ ground arith
    | inr (j, found) ↦ ground arith
  ]
]
index-some (b ∷ s) (suc i) h = ground (arith, index-some s i)

length-split_loop :
    (n : ℕ) (s : Bytes) (res : List Bytes)
    → length (split_loop n s res) ≡ length res + suc (min n (suc (count space s)))
unfolding split_loop
length-split_loop zero s res = omega (arith, length-append res (trim_left s space ∷ []))
length-split_loop (suc n) s res = elim (Option-cases (index s space)) [
  | inl e ↦ rw (e, split_loop) (omega (arith, index-none s e, length-append {0} res (s ∷ [] ∷ [])))
  | inr (i, e) ↦
      rw (e, split_loop)
        (omega (
          arith,
          index-some s i e,
          length-append res (take i s ∷ []),
          length-split_loop n (drop (suc i) s) (res ++ take i s ∷ []),
        ))
]

-- A line of `n` spaces gives `n + 2` parts, and never more than six.
pub length-split_maps_file_entry :
    (entry : Bytes) → length (split_maps_file_entry entry) ≡ min 6 (count space entry + 2)
unfolding split_maps_file_entry
length-split_maps_file_entry entry = omega (arith, length-split_loop 5 entry [])

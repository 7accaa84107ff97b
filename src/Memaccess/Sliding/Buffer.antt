-- ===== src/Memaccess/Sliding/Buffer.antt =====
-- The buffer of `SlidingWalkMemory`: what `copy` and the slices of it hold.
use Prim.Native.Nat.{min}
use masche.Prelude.{
  ℕ, zero, suc, ◌+◌, ◌-◌, ◌≤◌, ◌≡◌, refl, [], ◌∷◌, ◌++◌, Bytes, length, length-append, take, drop,
  arith, ap, ◌∙◌, append-nil, append-nil,
}
use masche.Memaccess.Sliding.{copy}

pub length-copy : (dst src : Bytes) → length (copy dst src) ≡ length dst
unfolding copy
length-copy [] src = refl
length-copy (d ∷ dst) [] = refl
length-copy (d ∷ dst) (b ∷ src) = ap suc (length-copy dst src)

pub take-copy : (dst src : Bytes) → length src ≤ length dst → take (length src) (copy dst src) ≡ src
unfolding copy
take-copy [] [] h = refl
take-copy [] (b ∷ src) h = absurd (omega arith)
take-copy (d ∷ dst) [] h = refl
take-copy (d ∷ dst) (b ∷ src) h = ap (λ t. b ∷ t) (take-copy dst src (omega arith))

pub length-take : (n : ℕ) (xs : Bytes) → length (take n xs) ≡ min n (length xs)
length-take zero xs = omega arith
length-take (suc n) [] = omega arith
length-take (suc n) (x ∷ xs) = omega (arith, length-take n xs)

pub length-drop : (n : ℕ) (xs : Bytes) → length (drop n xs) ≡ length xs - n
length-drop zero xs = omega arith
length-drop (suc n) [] = omega arith
length-drop (suc n) (x ∷ xs) = omega (arith, length-drop n xs)

pub take-append : (xs ys : Bytes) (n : ℕ) → take (length xs + n) (xs ++ ys) ≡ xs ++ take n ys
take-append [] ys n = ground arith
take-append (x ∷ xs) ys n =
    let e : suc (length xs) + n ≡ suc (length xs + n) = omega arith in
    rw e (ap (λ t. x ∷ t) (take-append xs ys n))

-- The window behind a fill: the first half, and the new bytes.
pub take-fill :
    (buffer current : Bytes) (half : ℕ)
    → length buffer ≡ half + half
    → length current ≤ half
    → take (half + length current) (take half buffer ++ copy (drop half buffer) current)
      ≡ take half buffer ++ current
take-fill buffer current half l c =
    let first : length (take half buffer) ≡ half = omega (arith, length-take half buffer) in
    let fits : length current ≤ length (drop half buffer) =
      omega (arith, length-drop half buffer) in
    let split = take-append (take half buffer) (copy (drop half buffer) current) (length current) in
    (rw first at split)
    ∙ ap (λ t. take half buffer ++ t) (take-copy (drop half buffer) current fits)

pub length-fill :
    (buffer current : Bytes) (half : ℕ)
    → length buffer ≡ half + half
    → length (take half buffer ++ copy (drop half buffer) current) ≡ half + half
length-fill buffer current half l = omega (
  arith,
  length-append (take half buffer) (copy (drop half buffer) current),
  length-take half buffer,
  length-copy (drop half buffer) current,
  length-drop half buffer,
)

-- `copy(buffer, buffer[:n])` changes nothing.
pub copy_self : (n : ℕ) (xs : Bytes) → copy xs (take n xs) ≡ xs
unfolding copy
copy_self zero [] = refl
copy_self zero (x ∷ xs) = refl
copy_self (suc n) [] = refl
copy_self (suc n) (x ∷ xs) = ap (λ t. x ∷ t) (copy_self n xs)

-- The first half stays through a fill.
pub front-fill :
    (buffer current : Bytes) (half : ℕ)
    → length buffer ≡ half + half
    → take half (take half buffer ++ copy (drop half buffer) current) ≡ take half buffer
front-fill buffer current half l =
    let first : length (take half buffer) ≡ half = omega (arith, length-take half buffer) in
    let none_more : half + 0 ≡ half = omega arith in
    let split = take-append (take half buffer) (copy (drop half buffer) current) 0 in
    rw (first, none_more, append-nil) at split

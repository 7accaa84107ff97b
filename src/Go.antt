-- ===== src/Go.antt =====
-- What the sources take from Go itself: error values, panics and loops that do not end, and the
-- parts of packages strings, strconv and bufio that they call (in the children).
pub mod Strings
pub mod Number
pub mod Lines
pub mod Int
use masche.Go.Int.{ℤ}
use masche.Prelude.{
  ◌⊎◌, inl, inr, ℕ, ◌+◌, ◌-◌, ◌%◌, ◌^◌, List, Option, none, some, ◌≡◌, refl, Bytes,
}

-- An error value. `external` is one that the operating system made; the others name the
-- `fmt.Errorf` or the `strconv.NumError` that makes them, with the values that it formats.
pub data Error : Type 0 where
  external : Bytes → Error
  num_syntax num_range : Bytes → Error
  invalid_limits : Error
  unrecognised_line : Bytes → Error
  reading : ℕ → ℕ → Error → Error
  negative_offset : Error
  short_read : Error
  start_not_contained : Error
  retries_exceeded : ℕ → ℕ → Error → Error
  odd_buffer_size : Error
  open_failed : ℤ → Error → Error
  permission_denied no_name : ℤ → Error
  atoi_syntax atoi_range : Bytes → Error
  no_integer : Bytes → Error → Error
  no_status_file status_unread : ℤ → Bytes → Error → Error
  status_unparsed : Bytes → Error → Error
  c_error : ℤ → Bytes → Error
  copying : ℕ → ℕ → Error → Error
  copied_short : ℕ → ℕ → ℕ → Error
  no_heading : Bytes → Error
  c_status modules_status : ℕ → Error
  no_path : ℤ → Error → Error
  exe_link : Bytes → Error → Error

-- A value or an error, for functions that return one of the two.
pub data Result {ℓ} (A : Type ℓ) : Type ℓ where
  ok : A → Result A
  err : Error → Result A

pub Result-cases {ℓ} :
    {A : Type ℓ} (r : Result A) → ((a : A) × (r ≡ ok a)) ⊎ ((e : Error) × (r ≡ err e))
Result-cases (ok a) = inl (a, refl)
Result-cases (err e) = inr (e, refl)

-- What a call comes to. `out_of_fuel` stands for a loop that has not ended in the rounds given.
pub data Outcome {ℓ} (A : Type ℓ) : Type ℓ where
  done : A → Outcome A
  panic : Outcome A
  out_of_fuel : Outcome A

infixl 5 ◌>>=◌
abbrev pub ◌>>=◌ {ℓ κ} : {A : Type ℓ} {B : Type κ} → Outcome A → (A → Outcome B) → Outcome B
done a >>= f = f a
panic >>= f = panic
out_of_fuel >>= f = out_of_fuel

-- `uint64` and `uintptr` arithmetic wraps around.
abbrev pub word : ℕ
word = 2 ^ 64

abbrev pub add64 : ℕ → ℕ → ℕ
add64 a b = (a + b) % word

abbrev pub sub64 : ℕ → ℕ → ℕ
sub64 a b = (a + word - b) % word

-- ===== src/Streams.antt =====
-- What the program uses of the input streams of the C and C++ libraries: `>>` into an int and into
-- a string, and fgets.
pub mod Words
use Prim.Native.Nat.{suc}
use fresh_core_native.Prelude.{
  ℕ, zero, ◌-◌, Bytes, ℤ, pos, int_of_neg, Bool, true, false, Option, none, some, [], ◌∷◌, u64,
  ◌&&◌, ltb, leb, ◌==◌, if◌then◌else◌,
}
use fresh_core_native.Config.{is_digit, is_c_space, skip_space, digits_value}

abbrev starts_with_digit : Bytes → Bool
starts_with_digit [] = false
starts_with_digit (c ∷ _) = is_digit c

drop_digits : Bytes → Bytes
drop_digits [] = []
drop_digits (c ∷ s) = let rest = drop_digits s in if is_digit c then rest else c ∷ s

-- The digits with their sign, and the rest of the stream; no digit, or a value that does not fit an
-- int, sets failbit.
signed_int : Bool → Bytes → Option (ℤ × Bytes)
unfolding drop_digits digits_value
signed_int minus s =
    let n = digits_value 0 s in
    if starts_with_digit s
    then (if minus
        then (if leb n 2147483648 then some (int_of_neg n, drop_digits s) else none)
        else (if ltb n 2147483648 then some (pos n, drop_digits s) else none))
    else none

after_sign : Bytes → Option (ℤ × Bytes)
unfolding signed_int
after_sign [] = none
after_sign (c ∷ s) =
    if c == b'-'
    then signed_int true s
    else if c == b'+'
    then signed_int false s
    else signed_int false (c ∷ s)

-- stream >> i, where `i` is an int, with the rest of the stream: `none` is failbit.
unfoldable pub read_int : Bytes → Option (ℤ × Bytes)
unfolding after_sign skip_space
read_int s = after_sign (skip_space s)

abbrev value_of {ℓ} : {A : Type ℓ} → Option (A × Bytes) → Option A
value_of none = none
value_of (some (a, _)) = some a

unfoldable pub stream_int : Bytes → Option ℤ
unfolding read_int
stream_int s = value_of (read_int s)

-- The digits of a uint64_t and the rest of the stream; a minus sign negates modulo 2 ^ 64.
unsigned_digits : Bool → Bytes → Option (ℕ × Bytes)
unfolding drop_digits
unsigned_digits minus s =
    let n = digits_value 0 s in
    if starts_with_digit s && ltb n 18446744073709551616
    then some (if minus then u64 (18446744073709551616 - n) else n, drop_digits s)
    else none

unsigned_after_sign : Bytes → Option (ℕ × Bytes)
unfolding unsigned_digits digits_value
unsigned_after_sign [] = none
unsigned_after_sign (c ∷ s) =
    if c == b'-'
    then unsigned_digits true s
    else if c == b'+'
    then unsigned_digits false s
    else unsigned_digits false (c ∷ s)

-- file >> n, where `n` is a uint64_t, with the rest of the stream.
unfoldable pub stream_u64 : Bytes → Option (ℕ × Bytes)
unfolding unsigned_after_sign skip_space
stream_u64 s = unsigned_after_sign (skip_space s)

unfoldable pub word : Bytes → Bytes
word [] = []
word (c ∷ s) = let rest = word s in if is_c_space c then [] else c ∷ rest

drop_word : Bytes → Bytes
drop_word [] = []
drop_word (c ∷ s) = let rest = drop_word s in if is_c_space c then c ∷ s else rest

abbrev nonempty : Bytes → Bytes → Option (Bytes × Bytes)
nonempty [] rest = none
nonempty (c ∷ s) rest = some (c ∷ s, rest)

-- stream >> text, with the rest of the stream
unfoldable pub read_word : Bytes → Option (Bytes × Bytes)
unfolding word drop_word skip_space
read_word s = nonempty (word (skip_space s)) (drop_word (skip_space s))

unfoldable pub stream_word : Bytes → Option Bytes
unfolding read_word
stream_word s = value_of (read_word s)

-- At most `n` bytes up to and with the first newline.
unfoldable pub first_line : ℕ → Bytes → Bytes
first_line zero s = []
first_line (suc n) [] = []
first_line (suc n) (c ∷ s) = let rest = first_line n s in if c == 10 then c ∷ [] else c ∷ rest

-- A char array read as a std::string ends before its first zero byte.
unfoldable pub c_string : Bytes → Bytes
c_string [] = []
c_string (c ∷ s) = let rest = c_string s in if c == 0 then [] else c ∷ rest

-- fgets(buffer, 128, pipe) on the output of a pipe, then std::string(buffer); `none` at its end.
unfoldable pub fgets : Bytes → Option Bytes
unfolding first_line c_string
fgets [] = none
fgets (c ∷ s) = some (c_string (first_line 127 (c ∷ s)))

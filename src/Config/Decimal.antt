-- ===== src/Config/Decimal.antt =====
-- The decimal text of an `int`, which `std::atoi` of config/config.cpp reads.
use fresh_core_native.Prelude.{
  ℕ, zero, suc, ◌+◌, ◌*◌, ◌/◌, ◌%◌, ◌<◌, ◌≡◌, refl, ◌∙◌, Bytes, ℤ, pos, negsuc, true, false, [],
  ◌∷◌, ltb, if◌then◌else◌, All, sym, ap, Bool-cases, inl, inr, arith,
}
use fresh_core_native.Config.{is_digit, skip_space, digits_value, signed, after_sign, atoi}

-- 10 ^ k, as omega reads it.
abbrev pub power_of_ten : ℕ → ℕ
power_of_ten zero = 1
power_of_ten (suc k) = 10 * power_of_ten k

abbrev pub digit : ℕ → ℕ
digit n = b'0' + n % 10

-- The digits of a number of at most `k` digits, put before `rest`.
unfoldable pub digits : ℕ → ℕ → Bytes → Bytes
digits zero n rest = rest
digits (suc k) n rest =
    let more = digits k (n / 10) (digit n ∷ rest) in if ltb n 10 then digit n ∷ rest else more

-- An `int` has at most ten digits.
unfoldable pub int_text : ℤ → Bytes
unfolding digits
int_text (pos n) = digits 10 n []
int_text (negsuc n) = b'-' ∷ digits 10 (suc n) []

-- -2 ^ 31 ≤ i < 2 ^ 31
abbrev pub FitsInt : ℤ → Type 0
FitsInt (pos n) = n < 2147483648
FitsInt (negsuc n) = n < 2147483648

abbrev pub IsDigit : ℕ → Type 0
IsDigit c = is_digit c ≡ true

pub digit-IsDigit : (n : ℕ) → IsDigit (digit n)
digit-IsDigit n = ground arith

digits_value-digit :
    (n : ℕ) (rest : Bytes) → digits_value (n / 10) (digit n ∷ rest) ≡ digits_value n rest
unfolding digits_value
digits_value-digit n rest = ground arith

pub digits_value-digits :
    (k n : ℕ) (rest : Bytes)
    → n < power_of_ten k
    → digits_value 0 (digits k n rest) ≡ digits_value n rest
unfolding digits
digits_value-digits zero n rest h = ground arith
digits_value-digits (suc k) n rest h =
    ground (arith, digits_value-digit n rest, digits_value-digits k (n / 10) (digit n ∷ rest))

pub digits-All :
    (Q : ℕ → Type 0)
    → ((c : ℕ) → IsDigit c → Q c)
    → (k n : ℕ) (rest : Bytes) → All Q rest
    → All Q (digits k n rest)
unfolding digits
digits-All Q digit_Q zero n rest h = h
digits-All Q digit_Q (suc k) n rest h = elim (Bool-cases (ltb n 10)) [
  | inl e ↦ rw e (digit_Q (digit n) (digit-IsDigit n), h)
  | inr e ↦
      rw e
        (digits-All Q digit_Q k (n / 10) (digit n ∷ rest) (digit_Q (digit n) (digit-IsDigit n), h))
]

-- Digits put before a digit begin with a digit.
digits-first :
    (k n d : ℕ) (rest : Bytes)
    → IsDigit d
    → (c : ℕ) × (s : Bytes) × (digits k n (d ∷ rest) ≡ c ∷ s) × IsDigit c
unfolding digits
digits-first zero n d rest h = (d, rest, refl, h)
digits-first (suc k) n d rest h = elim (Bool-cases (ltb n 10)) [
  | inl e ↦ (digit n, d ∷ rest, ground (arith), digit-IsDigit n)
  | inr e ↦
      (let (c, s, same, hc) = digits-first k (n / 10) (digit n) (d ∷ rest) (digit-IsDigit n) in
        (c, s, ground (arith, same), hc))
]

pub digits_begin :
    (k n : ℕ) (rest : Bytes) → (c : ℕ) × (s : Bytes) × (digits (suc k) n rest ≡ c ∷ s) × IsDigit c
unfolding digits
digits_begin k n rest = elim (Bool-cases (ltb n 10)) [
  | inl e ↦ (digit n, rest, ground arith, digit-IsDigit n)
  | inr e ↦
      (let (c, s, same, hc) = digits-first k (n / 10) (digit n) rest (digit-IsDigit n) in
        (c, s, ground (arith, same), hc))
]

module _ (overflow : Bytes → ℤ) where
  -- A text that begins with a digit has no sign.
  atoi_digit :
      (c : ℕ) (s : Bytes)
      → IsDigit c
      → atoi overflow (c ∷ s) ≡ signed overflow (c ∷ s) false (digits_value 0 (c ∷ s))
  unfolding atoi after_sign skip_space
  atoi_digit c s h = ground (arith)

  atoi_minus :
      (s : Bytes) → atoi overflow (b'-' ∷ s) ≡ signed overflow (b'-' ∷ s) true (digits_value 0 s)
  unfolding atoi after_sign skip_space
  atoi_minus s = ground (arith)

  atoi-digits : (n : ℕ) → n < 2147483648 → atoi overflow (digits 10 n []) ≡ pos n
  unfolding signed digits_value
  atoi-digits n h =
      let (c, s, same, hc) = digits_begin 9 n [] in
      let value : digits_value 0 (c ∷ s) ≡ n =
        ap (digits_value 0) (sym same) ∙ digits_value-digits 10 n [] (omega arith) in
      rw (same, atoi_digit c s hc, value) (ground (arith))

  -- Every `int` is read back from its decimal text.
  pub atoi-int_text : (i : ℤ) → FitsInt i → atoi overflow (int_text i) ≡ i
  unfolding int_text signed digits_value
  atoi-int_text (pos n) h = atoi-digits n h
  atoi-int_text (negsuc n) h =
      rw (atoi_minus (digits 10 (suc n) []), digits_value-digits 10 (suc n) [] (omega arith))
        (ground arith)

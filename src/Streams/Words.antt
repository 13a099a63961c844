-- ===== src/Streams/Words.antt =====
-- Extracting words and numbers that a space ends.
use fresh_core_native.Prelude.{
  ℕ, zero, suc, ◌/◌, ◌<◌, ◌≡◌, refl, sym, ap, ◌∙◌, Bytes, pos, false, some, [], ◌∷◌, ◌++◌, ltb, All,
  Bool-cases, inl, inr, lt→ltb, arith,
}
use fresh_core_native.Config.{is_c_space, skip_space, digits_value}
use fresh_core_native.Config.Decimal.{
  IsDigit, digit, digit-IsDigit, power_of_ten, digits, digits_begin, digits_value-digits,
}
use fresh_core_native.Streams.{
  drop_digits, signed_int, after_sign, read_int, word, drop_word, read_word,
}

abbrev pub IsWordByte : ℕ → Type 0
IsWordByte c = is_c_space c ≡ false

-- A word that an extraction gives: not empty, and without white space.
pub data IsWord : Bytes → Type 0 where
  is_word : {c : ℕ} {s : Bytes} → IsWordByte c → All IsWordByte s → IsWord (c ∷ s)

word-append : (s rest : Bytes) → All IsWordByte s → word (s ++ 32 ∷ rest) ≡ s
unfolding word
word-append [] rest h = refl
word-append (c ∷ s) rest h = rw (h.0, word-append s rest h.1) refl

drop_word-append : (s rest : Bytes) → All IsWordByte s → drop_word (s ++ 32 ∷ rest) ≡ 32 ∷ rest
unfolding drop_word
drop_word-append [] rest h = refl
drop_word-append (c ∷ s) rest h = rw (h.0, drop_word-append s rest h.1) refl

skip_space_word : (c : ℕ) (s : Bytes) → IsWordByte c → skip_space (c ∷ s) ≡ c ∷ s
unfolding skip_space
skip_space_word c s h = rw h refl

-- A word is extracted up to the space behind it, with or without a space before it.
pub read_word-append :
    (w rest : Bytes) → IsWord w → read_word (w ++ 32 ∷ rest) ≡ some (w, 32 ∷ rest)
unfolding read_word
read_word-append _ rest (is_word {c} {s} hc hs) =
    rw
      (
        skip_space_word c (s ++ 32 ∷ rest) hc,
        word-append (c ∷ s) rest (hc, hs),
        drop_word-append (c ∷ s) rest (hc, hs),
      )
      refl

pub read_word_space : (s : Bytes) → read_word (32 ∷ s) ≡ read_word s
unfolding read_word skip_space
read_word_space s = refl

drop_digits_digit : (c : ℕ) (s : Bytes) → IsDigit c → drop_digits (c ∷ s) ≡ drop_digits s
unfolding drop_digits
drop_digits_digit c s h = rw h refl

drop_digits-digits : (k n : ℕ) (rest : Bytes) → drop_digits (digits k n rest) ≡ drop_digits rest
unfolding digits
drop_digits-digits zero n rest = refl
drop_digits-digits (suc k) n rest = elim (Bool-cases (ltb n 10)) [
  | inl e ↦ rw e (drop_digits_digit (digit n) rest (digit-IsDigit n))
  | inr e ↦ rw e (
      drop_digits-digits k (n / 10) (digit n ∷ rest)
      ∙ drop_digits_digit (digit n) rest (digit-IsDigit n))
]

signed_int_digit :
    (c : ℕ) (s : Bytes) (n : ℕ) (rest : Bytes)
    → IsDigit c
    → digits_value 0 (c ∷ s) ≡ n
    → drop_digits (c ∷ s) ≡ rest
    → n < 2147483648
    → signed_int false (c ∷ s) ≡ some (pos n, rest)
unfolding signed_int
signed_int_digit c s n rest hc value rest_is fits =
    rw (value, rest_is, hc, lt→ltb n 2147483648 fits) refl

after_sign_digit : (c : ℕ) (s : Bytes) → IsDigit c → after_sign (c ∷ s) ≡ signed_int false (c ∷ s)
unfolding after_sign
after_sign_digit c s hc = ground (arith, hc)

read_int_digit : (c : ℕ) (s : Bytes) → IsDigit c → read_int (c ∷ s) ≡ after_sign (c ∷ s)
unfolding read_int
read_int_digit c s hc = ap after_sign (skip_space_word c s (ground (arith, hc)))

stops : (n : ℕ) (rest : Bytes) → digits_value n (32 ∷ rest) ≡ n
unfolding digits_value
stops n rest = refl

keeps : (rest : Bytes) → drop_digits (32 ∷ rest) ≡ 32 ∷ rest
unfolding drop_digits
keeps rest = refl

read_int_space : (s : Bytes) → read_int (32 ∷ s) ≡ read_int s
unfolding read_int skip_space
read_int_space s = refl

-- A number below 2 ^ 31 is extracted up to the space behind it.
pub read_int-digits :
    (n : ℕ) (rest : Bytes)
    → n < 2147483648
    → read_int (32 ∷ digits 10 n (32 ∷ rest)) ≡ some (pos n, 32 ∷ rest)
read_int-digits n rest fits =
    let (c, s, same, hc) = digits_begin 9 n (32 ∷ rest) in
    let value : digits_value 0 (c ∷ s) ≡ n =
      ap (digits_value 0) (sym same) ∙ digits_value_space n rest (omega arith) in
    ap (λ (t : Bytes). read_int (32 ∷ t)) same
    ∙ (read_int_space (c ∷ s)
        ∙ (read_int_digit c s hc
            ∙ (after_sign_digit c s hc
                ∙ signed_int_digit c s n (32 ∷ rest) hc value
                    (ap drop_digits (sym same) ∙ drop_digits_space n rest) fits)))
  where
    digits_value_space :
        (n : ℕ) (rest : Bytes) → n < power_of_ten 10 → digits_value 0 (digits 10 n (32 ∷ rest)) ≡ n
    digits_value_space n rest h = digits_value-digits 10 n (32 ∷ rest) h ∙ stops n rest

    drop_digits_space : (n : ℕ) (rest : Bytes) → drop_digits (digits 10 n (32 ∷ rest)) ≡ 32 ∷ rest
    drop_digits_space n rest = drop_digits-digits 10 n (32 ∷ rest) ∙ keeps rest

-- ===== src/Config/File/Written/Trim.antt =====
-- What `LoadConfig` of config/config.cpp makes of a line `key=value`.
use fresh_core_native.Prelude.{
  ℕ, ◌≡◌, refl, Bytes, ℤ, false, some, [], ◌∷◌, ◌++◌, ◌==◌, All, All-append, arith,
}
use fresh_core_native.Config.{
  Configuration, is_blank, trim_left, trim_right, trim, lines, split_at_equals,
}
use fresh_core_native.Config.File.{is_comment, key_of, assign_key, assign_pair, load_line}

abbrev pub IsSolid : ℕ → Type 0
IsSolid c = is_blank c ≡ false

-- A byte of a key: no blank, no '=' and no '#'.
abbrev pub IsKeyByte : ℕ → Type 0
IsKeyByte c = IsSolid c × ((c == b'=') ≡ false) × ((c == b'#') ≡ false)

trim_left_solid : (s : Bytes) → All IsSolid s → trim_left s ≡ s
unfolding trim_left
trim_left_solid [] h = refl
trim_left_solid (c ∷ s) h = rw h.0 refl

trim_right_solid : (s : Bytes) → All IsSolid s → trim_right s ≡ s
unfolding trim_right
trim_right_solid [] h = refl
trim_right_solid (c ∷ s) h = rw (h.0, trim_right_solid s h.1) refl

trim_solid : (s : Bytes) → All IsSolid s → trim s ≡ s
unfolding trim
trim_solid s h = rw (trim_left_solid s h, trim_right_solid s h) refl

split_at_equals_key :
    (key value : Bytes)
    → All IsKeyByte key
    → split_at_equals (key ++ b'=' ∷ value) ≡ some (key, value)
unfolding split_at_equals
split_at_equals_key [] value h = refl
split_at_equals_key (c ∷ key) value h = rw (h.0.1, split_at_equals_key key value h.1) refl

-- std::getline ends a line at the newline.
pub lines_line : (s rest : Bytes) → All IsSolid s → lines (s ++ 10 ∷ rest) ≡ s ∷ lines rest
unfolding lines
lines_line [] rest h = refl
lines_line (c ∷ s) rest h = ground (arith, lines_line s rest h.1)

key-IsSolid : (s : Bytes) → All IsKeyByte s → All IsSolid s
key-IsSolid [] h = tt
key-IsSolid (c ∷ s) h = (h.0.0, key-IsSolid s h.1)

pub line-IsSolid :
    (key value : Bytes) → All IsKeyByte key → All IsSolid value → All IsSolid (key ++ b'=' ∷ value)
line-IsSolid key value hk hv = All-append IsSolid key (b'=' ∷ value) (key-IsSolid key hk) (refl, hv)

is_comment_key : (key value : Bytes) → All IsKeyByte key → is_comment (key ++ b'=' ∷ value) ≡ false
is_comment_key [] value h = refl
is_comment_key (c ∷ key) value h = h.0.2

module _ (overflow : Bytes → ℤ) where
  pub load_line_key :
      (key value : Bytes) (c : Configuration)
      → All IsKeyByte key
      → All IsSolid value
      → load_line overflow (key ++ b'=' ∷ value) c ≡ assign_key overflow (key_of key) value c
  unfolding load_line assign_pair
  load_line_key key value c hk hv =
      rw
        (
          trim_solid _ (line-IsSolid key value hk hv),
          is_comment_key key value hk,
          split_at_equals_key key value hk,
          trim_solid key (key-IsSolid key hk),
          trim_solid value hv,
        )
        refl

-- ===== src/StateImage/Words.antt =====
-- Little-endian words: what is written is read back.
use native.Mathlib.Nat.{pow-suc}
use fresh_core_native.Prelude.{ℕ, zero, suc, ◌*◌, ◌/◌, ◌^◌, ◌<◌, ◌≡◌, refl, ap, arith, length}
use fresh_core_native.StateImage.{le_bytes, from_le}

length-le_bytes : (w n : ℕ) → length (le_bytes w n) ≡ w
unfolding le_bytes
length-le_bytes zero n = refl
length-le_bytes (suc w) n = ap suc (length-le_bytes w (n / 256))

div_lt : (w n : ℕ) → n < 256 ^ suc w → n / 256 < 256 ^ w
div_lt w n h = let h' : n < 256 ^ w * 256 = rw pow-suc at h in omega arith

pub from_le-le_bytes : (w n : ℕ) → n < 256 ^ w → from_le (le_bytes w n) ≡ n
unfolding le_bytes from_le
from_le-le_bytes zero n h = omega arith
from_le-le_bytes (suc w) n h =
    let rest : from_le (le_bytes w (n / 256)) ≡ n / 256 =
      from_le-le_bytes w (n / 256) (div_lt w n h) in
    omega arith

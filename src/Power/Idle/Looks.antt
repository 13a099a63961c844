-- ===== src/Power/Idle/Looks.antt =====
-- What the evaluations of power/idle_detector.cpp find, and since when they find the screen off.
use fresh_core_native.Prelude.{
  ℕ, ◌+◌, ◌≤◌, ◌<◌, ◌≡◌, refl, int_to_u64, int_scale, sub64, Bool, true, false, ltb, ◌==◌, Option,
  none, some, List, [], ◌∷◌, All, if◌then◌else◌, arith,
}
use fresh_core_native.Config.{Configuration}
use fresh_core_native.Sys.{Sys}
use fresh_core_native.Sys.Monad.{pure, modify}
use fresh_core_native.Sys.Still.{Sensed-IsPreorder}
use fresh_core_native.Power.Idle.{set_screen_off_time}

-- What an evaluation found: the screen on, or off, at the seconds of the monotonic clock.
pub data Look : Type 0 where
  lit : Look
  dark : ℕ → Look

abbrev pub earlier : ℕ → Option ℕ → ℕ
earlier t none = t
earlier t (some u) = u

-- When the first of the last looks, newest first, found the screen off, since it was last found on.
abbrev pub dark_since : List Look → Option ℕ
dark_since [] = none
dark_since (lit ∷ looks) = none
dark_since (dark t ∷ looks) = some (earlier t (dark_since looks))

-- The clock gives numbers from 1 to `now`.
abbrev pub IsBefore : ℕ → Look → Type 0
IsBefore now lit = Unit
IsBefore now (dark t) = (0 < t) × (t ≤ now)

abbrev pub stored : Option ℕ → ℕ
stored none = 0
stored (some t) = t

abbrev pub off_since : ℕ → ℕ → ℕ
off_since now time = if time == 0 then now else time

abbrev pub InRange : ℕ → Option ℕ → Type 0
InRange now none = Unit
InRange now (some t) = (0 < t) × (t ≤ now)

pub earlier-InRange :
    (now t : ℕ) (o : Option ℕ)
    → (0 < t) × (t ≤ now)
    → InRange now o
    → InRange now (some (earlier t o))
earlier-InRange now t none h k = h
earlier-InRange now t (some u) h k = k

pub dark_since-InRange :
    (now : ℕ) (looks : List Look) → All (IsBefore now) looks → InRange now (dark_since looks)
dark_since-InRange now [] h = tt
dark_since-InRange now (lit ∷ looks) h = tt
dark_since-InRange now (dark t ∷ looks) h =
    earlier-InRange now t (dark_since looks) h.0 (dark_since-InRange now looks h.1)

pub off_since-earlier :
    (now t : ℕ) (o : Option ℕ) → InRange now o → off_since t (stored o) ≡ earlier t o
off_since-earlier now t none h = refl
off_since-earlier now t (some u) h = ground (arith, h.0)

abbrev pub required_of : Configuration → ℕ
required_of c = int_to_u64 (int_scale c.idle_delay_minutes 60)

pub stored_time :
    (b : Bool) (now : ℕ) (t : Sys)
    → ((if b then modify (set_screen_off_time now) else pure tt) t).1
      ≡ record t { screen_off_time = if b then now else t.screen_off_time }
unfolding modify pure
stored_time true now t = refl
stored_time false now t = refl

pub not_below : (a b c d : ℕ) → ltb a b ≡ false → a ≡ c → b ≡ d → d ≤ c
not_below a b c d h e f = ground (arith, h, e, f)

pub waited :
    (now since required : ℕ)
    → since ≤ now
    → now < 18446744073709551616
    → required ≤ sub64 now since
    → since + required ≤ now
waited now since required a b h = omega (arith, a, b, h)

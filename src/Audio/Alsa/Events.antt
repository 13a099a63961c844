-- ===== src/Audio/Alsa/Events.antt =====
-- The buffer that read fills with struct inotify_event, against the masks that the loop finds in it.
use fresh_core_native.Prelude.{
  ℕ, zero, suc, ◌+◌, ◌≤◌, ◌<◌, ◌≡◌, refl, ◌∙◌, ap, Bytes, List, [], ◌∷◌, ◌++◌, map, All, length,
  drop, drop-add, length-append, drop-length-append, arith,
}
use fresh_core_native.StateImage.{le_bytes, word_at}
use fresh_core_native.StateImage.Words.{from_le-le_bytes}
use fresh_core_native.Audio.Alsa.{masks_in}

-- struct inotify_event, with its name padded by zeros.
pub record Event : Type 0 where
  pub wd : ℕ
  pub mask : ℕ
  pub cookie : ℕ
  pub name : Bytes

-- The words of the event fit uint32_t.
pub record FitsEvent (e : Event) : Type 0 where
  pub mask : e.mask < 4294967296
  pub len : length e.name < 4294967296

unfoldable pub event_bytes : Event → Bytes
unfolding le_bytes
event_bytes e =
    le_bytes 4 e.wd
    ++ (le_bytes 4 e.mask ++ (le_bytes 4 e.cookie ++ (le_bytes 4 (length e.name) ++ e.name)))

unfoldable pub buffer_of : List Event → Bytes
unfolding event_bytes
buffer_of [] = []
buffer_of (e ∷ es) = event_bytes e ++ buffer_of es

mask_read : (e : Event) (rest : Bytes) → FitsEvent e → word_at 4 4 (event_bytes e ++ rest) ≡ e.mask
unfolding event_bytes
mask_read e rest f = from_le-le_bytes 4 e.mask f.mask

event_dropped :
    (e : Event) (rest : Bytes)
    → FitsEvent e
    → drop (16 + word_at 12 4 (event_bytes e ++ rest)) (event_bytes e ++ rest) ≡ rest
unfolding event_bytes
event_dropped e rest f =
    drop-add 16 (word_at 12 4 (event_bytes e ++ rest)) (event_bytes e ++ rest)
    ∙ ap (λ n. drop n (e.name ++ rest)) (from_le-le_bytes 4 (length e.name) f.len)
    ∙ drop-length-append e.name rest

masks_of_event :
    (n : ℕ) (e : Event) (rest : Bytes)
    → FitsEvent e
    → masks_in (suc n) (event_bytes e ++ rest) ≡ e.mask ∷ masks_in n rest
unfolding masks_in event_bytes
masks_of_event n e rest f = λ i. mask_read e rest f i ∷ masks_in n (event_dropped e rest f i)

masks_in-fuel :
    (n : ℕ) (es : List Event)
    → All FitsEvent es
    → length es ≤ n
    → masks_in n (buffer_of es) ≡ map (λ e. e.mask) es
unfolding masks_in buffer_of
masks_in-fuel zero [] f h = refl
masks_in-fuel (suc n) [] f h = refl
masks_in-fuel zero (e ∷ es) f h = absurd (omega arith)
masks_in-fuel (suc n) (e ∷ es) f h =
    masks_of_event n e (buffer_of es) f.0
    ∙ ap (λ (ms : List ℕ). e.mask ∷ ms) (masks_in-fuel n es f.1 (omega arith))

length-event_bytes : (e : Event) → length (event_bytes e) ≡ 16 + length e.name
unfolding event_bytes
length-event_bytes e = omega arith

length-buffer_of : (es : List Event) → length es ≤ length (buffer_of es)
unfolding buffer_of
length-buffer_of [] = omega arith
length-buffer_of (e ∷ es) =
    omega (
      arith,
      length-append (event_bytes e) (buffer_of es),
      length-event_bytes e,
      length-buffer_of es,
    )

-- Of a buffer of whole events whose masks and name lengths fit 32 bits, the loop handles each event
-- once, in order, with its mask, whatever the names are.
pub masks_in-buffer_of :
    (es : List Event)
    → All FitsEvent es
    → masks_in (length (buffer_of es)) (buffer_of es) ≡ map (λ e. e.mask) es
masks_in-buffer_of es f = masks_in-fuel (length (buffer_of es)) es f (length-buffer_of es)

-- ===== src/Audio/Commands/Output.antt =====
-- ExecCommand: the output in chunks of fgets against the output as it is.
use fresh_core_native.Prelude.{
  ℕ, zero, suc, ◌≤◌, ◌≡◌, ◌≢◌, refl, ◌∙◌, ap, Bytes, some, [], ◌∷◌, ◌++◌, All, length, length-drop,
  drop, ◌==◌, Bool-cases, inl, inr, arith,
}
use fresh_core_native.Streams.{first_line, c_string}
use fresh_core_native.Audio.Commands.{read_chunks, read_output}

-- A program that writes text writes no zero byte.
abbrev pub IsText : Bytes → Type 0
IsText = All (λ c. c ≢ 0)

c_string-IsText : (s : Bytes) → IsText s → c_string s ≡ s
unfolding c_string
c_string-IsText [] h = refl
c_string-IsText (c ∷ s) h = ground (arith, h, c_string-IsText s h.1)

first_line-IsText : (n : ℕ) (s : Bytes) → IsText s → IsText (first_line n s)
unfolding first_line
first_line-IsText zero s h = tt
first_line-IsText (suc n) [] h = tt
first_line-IsText (suc n) (c ∷ s) h = elim (Bool-cases (c == 10)) [
  | inl e ↦ rw e (h.0, tt)
  | inr e ↦ rw e (h.0, first_line-IsText n s h.1)
]

first_line-drop : (n : ℕ) (s : Bytes) → first_line n s ++ drop (length (first_line n s)) s ≡ s
unfolding first_line
first_line-drop zero s = refl
first_line-drop (suc n) [] = refl
first_line-drop (suc n) (c ∷ s) = elim (Bool-cases (c == 10)) [
  | inl e ↦ rw e refl
  | inr e ↦ rw e (ap (λ (t : Bytes). c ∷ t) (first_line-drop n s))
]

drop-IsText : (n : ℕ) (s : Bytes) → IsText s → IsText (drop n s)
drop-IsText zero s h = h
drop-IsText (suc n) [] h = tt
drop-IsText (suc n) (c ∷ s) h = drop-IsText n s h.1

length-drop_line :
    (n c : ℕ) (s : Bytes) → length (drop (length (first_line (suc n) (c ∷ s))) (c ∷ s)) ≤ length s
unfolding first_line
length-drop_line n c s = elim (Bool-cases (c == 10)) [
  | inl e ↦ rw e (omega arith)
  | inr e ↦ rw e (omega (arith, length-drop (length (first_line n s)) s))
]

read_chunks-IsText : (n : ℕ) (s : Bytes) → IsText s → length s ≤ n → read_chunks n s ≡ s
unfolding read_chunks
read_chunks-IsText zero [] h l = refl
read_chunks-IsText zero (c ∷ s) h l = absurd (omega arith)
read_chunks-IsText (suc n) [] h l = refl
read_chunks-IsText (suc n) (c ∷ s) h l =
    let chunk = first_line 127 (c ∷ s) in
    let rest = drop (length chunk) (c ∷ s) in
    ap (λ (t : Bytes). t ++ read_chunks n rest)
      (c_string-IsText chunk (first_line-IsText 127 (c ∷ s) h))
    ∙ ap (λ (t : Bytes). chunk ++ t)
        (read_chunks-IsText n rest (drop-IsText (length chunk) (c ∷ s) h)
          (omega (arith, length-drop_line 126 c s)))
    ∙ first_line-drop 127 (c ∷ s)

-- The output of a command that writes no zero byte is read whole, whatever its length and its lines.
pub read_output-IsText : (output : Bytes) → IsText output → read_output (some output) ≡ output
unfolding read_output
read_output-IsText output h = read_chunks-IsText (length output) output h (omega arith)

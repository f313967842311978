-- ===== src/Plate/Chars.antt =====
-- The corrections of one character.
use vision_park_ai.Prelude.{
  ℕ, ◌≡◌, ◌⊎◌, true, false, ◌&&◌, some, inl, inr, List, [], ◌∷◌, arith, ◌==◌, Each, Bool-cases,
  Option-cases,
}
use vision_park_ai.Prelude.Text.{is_letter, is_digit}
use vision_park_ai.Plate.{
  digit_letters, letter_digits, lookup, fix_digit, fix_letter, is_alpha, two_letter_series,
  is_plate_char,
}

-- A property of every entry of a dictionary is one of the entry that is found.
lookup-Each :
    (P : ℕ × ℕ → Type 0) (c v : ℕ) (t : List (ℕ × ℕ)) → Each P t → lookup c t ≡ some v → P (c, v)
unfolding lookup
lookup-Each P c v [] h e = cc
lookup-Each P c v ((k, w) ∷ t) h e = elim (Bool-cases (c == k)) [
  | inl q ↦ let ek : c ≡ k = ground arith in let ev : v ≡ w = cc (rw q at e) in rw (ek, ev) h.0
  | inr q ↦ lookup-Each P c v t h.1 (rw q at e)
]

letter_digits-Each :
    Each (λ (p : ℕ × ℕ). (is_letter p.0 ≡ true) × (is_digit p.1 ≡ true)) letter_digits
letter_digits-Each = ground arith

digit_letters-Each :
    Each (λ (p : ℕ × ℕ). (is_digit p.0 ≡ true) × (is_letter p.1 ≡ true)) digit_letters
digit_letters-Each = ground arith

letter_to_digit :
    (c v : ℕ) → lookup c letter_digits ≡ some v → (is_letter c ≡ true) × (is_digit v ≡ true)
letter_to_digit c v e =
    lookup-Each (λ (p : ℕ × ℕ). (is_letter p.0 ≡ true) × (is_digit p.1 ≡ true)) c v letter_digits
      letter_digits-Each e

digit_to_letter :
    (c v : ℕ) → lookup c digit_letters ≡ some v → (is_digit c ≡ true) × (is_letter v ≡ true)
digit_to_letter c v e =
    lookup-Each (λ (p : ℕ × ℕ). (is_digit p.0 ≡ true) × (is_letter p.1 ≡ true)) c v digit_letters
      digit_letters-Each e

-- The two ways in which a character is corrected to a digit.
pub fix_digit_cases :
    (c : ℕ) → (fix_digit c ≡ c) ⊎ ((is_letter c ≡ true) × (is_digit (fix_digit c) ≡ true))
unfolding fix_digit
fix_digit_cases c = elim (Option-cases (lookup c letter_digits)) [
  | inl e ↦ ground arith
  | inr (v, e) ↦ ground (arith, letter_to_digit c v e)
]

pub fix_digit-digit : (c : ℕ) → is_digit c ≡ true → fix_digit c ≡ c
unfolding fix_digit
fix_digit-digit c h = rw h

pub fix_digit-fix_digit : (c : ℕ) → fix_digit (fix_digit c) ≡ fix_digit c
fix_digit-fix_digit c = elim (fix_digit_cases c) [
  | inl e ↦ rw e e
  | inr (l, d) ↦ fix_digit-digit (fix_digit c) d
]

fix_letter-letter : (c : ℕ) → is_digit c ≡ false → fix_letter c ≡ c
unfolding fix_letter
fix_letter-letter c h = rw h

pub fix_letter_cases :
    (c : ℕ) → (fix_letter c ≡ c) ⊎ ((is_digit c ≡ true) × (is_letter (fix_letter c) ≡ true))
unfolding fix_letter
fix_letter_cases c = elim (Option-cases (lookup c digit_letters)) [
  | inl e ↦ ground arith
  | inr (v, e) ↦ ground (arith, digit_to_letter c v e)
]

pub fix_letter-fix_letter : (c : ℕ) → fix_letter (fix_letter c) ≡ fix_letter c
fix_letter-fix_letter c = elim (fix_letter_cases c) [
  | inl e ↦ rw e e
  | inr (d, l) ↦ fix_letter-letter (fix_letter c) (ground arith)
]

-- Every digit has a letter.
pub fix_letter-is_letter : (c : ℕ) → is_plate_char c ≡ true → is_letter (fix_letter c) ≡ true
unfolding fix_letter lookup
fix_letter-is_letter c h = ground arith

pub fix_digit-is_plate_char : (c : ℕ) → is_plate_char c ≡ true → is_plate_char (fix_digit c) ≡ true
fix_digit-is_plate_char c h = ground (arith, fix_digit_cases c)

pub fix_letter-is_plate_char :
    (c : ℕ) → is_plate_char c ≡ true → is_plate_char (fix_letter c) ≡ true
fix_letter-is_plate_char c h = ground (arith, fix_letter_cases c)

-- Two letters, known series or not, and nothing else.
two_letter_series_lem : (c d : ℕ) → two_letter_series c d ≡ (is_alpha c && is_alpha d)
unfolding two_letter_series
two_letter_series_lem c d = ground arith

-- A correction of the fourth character does not turn the test on.
pub two_letter_series-fix_digit :
    (c d : ℕ) → two_letter_series c d ≡ false → two_letter_series c (fix_digit d) ≡ false
two_letter_series-fix_digit c d h =
    ground
      (arith, two_letter_series_lem c d, two_letter_series_lem c (fix_digit d), fix_digit_cases d)

-- ===== src/Plate/Rules.antt =====
-- Normalised plates: their alphabet, and that normalising twice changes nothing.
use vision_park_ai.Prelude.{
  ℕ, zero, suc, ◌≡◌, refl, ap, ◌∙◌, Bool, true, false, ◌&&◌, inl, inr, [], ◌∷◌, arith, leb,
  if◌then◌else◌, length, select, Each, Bool-cases,
}
use vision_park_ai.Prelude.Text.{Text, Unicode, upper}
use vision_park_ai.Plate.{
  fix_letter, two_letter_series, serial_offset, fix_serial, correct_chars, correct_vietnamese_plate,
  is_plate_char, normalize_plate,
}
use vision_park_ai.Plate.Chars.{
  fix_digit-fix_digit, fix_letter-fix_letter, fix_digit-is_plate_char, fix_letter-is_plate_char,
  two_letter_series-fix_digit,
}

abbrev pub IsPlain : Text → Type 0
IsPlain = Each (λ c. is_plate_char c ≡ true)

length-fix_serial : (k : ℕ) (cs : Text) → length (fix_serial k cs) ≡ length cs
unfolding fix_serial
length-fix_serial zero [] = refl
length-fix_serial zero (c ∷ cs) = ap suc (length-fix_serial zero cs)
length-fix_serial (suc k) [] = refl
length-fix_serial (suc k) (c ∷ cs) = ap suc (length-fix_serial k cs)

fix_serial-fix_serial : (k : ℕ) (cs : Text) → fix_serial k (fix_serial k cs) ≡ fix_serial k cs
unfolding fix_serial
fix_serial-fix_serial zero [] = refl
fix_serial-fix_serial zero (c ∷ cs) = rw (fix_digit-fix_digit c, fix_serial-fix_serial zero cs)
fix_serial-fix_serial (suc k) [] = refl
fix_serial-fix_serial (suc k) (c ∷ cs) = rw (fix_serial-fix_serial k cs)

fix_serial-IsPlain : (k : ℕ) (cs : Text) → IsPlain cs → IsPlain (fix_serial k cs)
unfolding fix_serial
fix_serial-IsPlain zero [] h = h
fix_serial-IsPlain zero (c ∷ cs) h = (fix_digit-is_plate_char c h.0, fix_serial-IsPlain zero cs h.1)
fix_serial-IsPlain (suc k) [] h = h
fix_serial-IsPlain (suc k) (c ∷ cs) h = (h.0, fix_serial-IsPlain k cs h.1)

-- The serial part begins at the same place after the correction.
serial_offset-fix_serial :
    (n c : ℕ) (cs : Text)
    → serial_offset n c (fix_serial (serial_offset n c cs) cs) ≡ serial_offset n c cs
unfolding serial_offset fix_serial
serial_offset-fix_serial n c [] = refl
serial_offset-fix_serial n c (d ∷ cs) = elim (Bool-cases (two_letter_series c d)) [
  | inl e ↦ ground arith
  | inr e ↦ ground (arith, two_letter_series-fix_digit c d)
]

pub length-correct_chars : (n : ℕ) (s : Text) → length (correct_chars n s) ≡ length s
unfolding correct_chars
length-correct_chars n [] = refl
length-correct_chars n (a ∷ []) = refl
length-correct_chars n (a ∷ b ∷ []) = refl
length-correct_chars n (a ∷ b ∷ c ∷ rest) = ap (λ k. suc (suc (suc k))) (length-fix_serial _ rest)

correct_chars-correct_chars :
    (n : ℕ) (s : Text) → correct_chars n (correct_chars n s) ≡ correct_chars n s
unfolding correct_chars
correct_chars-correct_chars n [] = refl
correct_chars-correct_chars n (a ∷ []) = refl
correct_chars-correct_chars n (a ∷ b ∷ []) = refl
correct_chars-correct_chars n (a ∷ b ∷ c ∷ rest) = rw (
  fix_digit-fix_digit a,
  fix_digit-fix_digit b,
  fix_letter-fix_letter c,
  serial_offset-fix_serial n (fix_letter c) rest,
  fix_serial-fix_serial _ rest,
)

correct_chars-IsPlain : (n : ℕ) (s : Text) → IsPlain s → IsPlain (correct_chars n s)
unfolding correct_chars
correct_chars-IsPlain n [] h = h
correct_chars-IsPlain n (a ∷ []) h = h
correct_chars-IsPlain n (a ∷ b ∷ []) h = h
correct_chars-IsPlain n (a ∷ b ∷ c ∷ rest) h = (
  fix_digit-is_plate_char a h.0,
  (
    fix_digit-is_plate_char b h.1.0,
    (fix_letter-is_plate_char c h.1.1.0, fix_serial-IsPlain _ rest h.1.1.1),
  ),
)

correct-IsPlain : (s : Text) → IsPlain s → IsPlain (correct_vietnamese_plate s)
unfolding correct_vietnamese_plate
correct-IsPlain s h = elim (Bool-cases (leb 7 (length s) && leb (length s) 9)) [
  | inl e ↦ rw e (correct_chars-IsPlain (length s) s h)
  | inr e ↦ rw e h
]

pub length-correct_vietnamese_plate : (s : Text) → length (correct_vietnamese_plate s) ≡ length s
unfolding correct_vietnamese_plate
length-correct_vietnamese_plate s = elim (Bool-cases (leb 7 (length s) && leb (length s) 9)) [
  | inl e ↦ rw e (length-correct_chars (length s) s)
  | inr e ↦ rw e
]

correct-nil : correct_vietnamese_plate [] ≡ []
unfolding correct_vietnamese_plate
correct-nil = refl

correct_vietnamese_plate_idem :
    (s : Text) → correct_vietnamese_plate (correct_vietnamese_plate s) ≡ correct_vietnamese_plate s
unfolding correct_vietnamese_plate
correct_vietnamese_plate_idem s = elim (Bool-cases (leb 7 (length s) && leb (length s) 9)) [
  | inl e ↦ rw (e, length-correct_chars (length s) s, e) (correct_chars-correct_chars (length s) s)
  | inr e ↦ rw (e, e)
]

module _ (u : Unicode) where
  upper-IsPlain : (s : Text) → IsPlain s → upper u s ≡ s
  upper-IsPlain [] h = refl
  upper-IsPlain (c ∷ s) h = rw (u.upper_fixed c h.0, upper-IsPlain s h.1)

  pub select-IsPlain : (s : Text) → IsPlain (select is_plate_char s)
  select-IsPlain [] = tt
  select-IsPlain (c ∷ s) = elim (Bool-cases (is_plate_char c)) [
    | inl e ↦ rw e (e, select-IsPlain s)
    | inr e ↦ rw e (select-IsPlain s)
  ]

  select-eq_self : (s : Text) → IsPlain s → select is_plate_char s ≡ s
  select-eq_self [] h = refl
  select-eq_self (c ∷ s) h = rw (h.0, select-eq_self s h.1)

  -- A normalised plate holds only the letters A-Z and the digits.
  pub normalize_plate-IsPlain : (auto : Bool) (s : Text) → IsPlain (normalize_plate u auto s)
  unfolding normalize_plate
  normalize_plate-IsPlain auto [] = tt
  normalize_plate-IsPlain true (c ∷ s) =
      correct-IsPlain (select is_plate_char (upper u (c ∷ s))) (select-IsPlain (upper u (c ∷ s)))
  normalize_plate-IsPlain false (c ∷ s) = select-IsPlain (upper u (c ∷ s))

  -- On a plain text the cleaning does nothing.
  normalize_plate-plain :
      (auto : Bool) (s : Text)
      → IsPlain s
      → normalize_plate u auto s ≡ (if auto then correct_vietnamese_plate s else s)
  unfolding normalize_plate correct_vietnamese_plate
  normalize_plate-plain true [] h = refl
  normalize_plate-plain false [] h = refl
  normalize_plate-plain auto (c ∷ s) h = rw (upper-IsPlain (c ∷ s) h, select-eq_self (c ∷ s) h)

  corrected :
      (auto : Bool) (s : Text)
      → (if auto
          then correct_vietnamese_plate (normalize_plate u auto s)
          else normalize_plate u auto s)
        ≡ normalize_plate u auto s
  unfolding normalize_plate
  corrected true [] = correct-nil
  corrected false s = refl
  corrected true (c ∷ s) = correct_vietnamese_plate_idem (select is_plate_char (upper u (c ∷ s)))

  -- Normalising a normalised plate gives it back, with the correction of characters and without.
  pub normalize_plate-normalize_plate :
      (auto : Bool) (s : Text)
      → normalize_plate u auto (normalize_plate u auto s) ≡ normalize_plate u auto s
  normalize_plate-normalize_plate auto s =
      normalize_plate-plain auto (normalize_plate u auto s) (normalize_plate-IsPlain auto s)
      ∙ corrected auto s

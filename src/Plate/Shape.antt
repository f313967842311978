-- ===== src/Plate/Shape.antt =====
-- The shape of a corrected plate.
use vision_park_ai.Prelude.{
  ℕ, zero, suc, ◌≤◌, ◌≡◌, Bool, true, ◌&&◌, ◌||◌, ◌==◌, any, map, drop, [], ◌∷◌, arith, leb, length,
  select, Each,
}
use vision_park_ai.Prelude.Text.{Text, codes, is_letter, is_digit, Unicode, upper}
use vision_park_ai.Plate.{
  lookup, fix_digit, fix_letter, serial_offset, fix_serial, correct_chars, correct_vietnamese_plate,
  is_plate_char, normalize_plate,
}
use vision_park_ai.Plate.Chars.{fix_letter-is_letter}
use vision_park_ai.Plate.Rules.{IsPlain, length-correct_vietnamese_plate, select-IsPlain}

-- The letters that look like no digit.
abbrev pub clear_letters : Text
clear_letters = codes "FHJKMNPRVWXY"

-- A digit, or a letter that looks like none.
abbrev pub is_clear : ℕ → Bool
is_clear c = is_digit c || any (λ (k : ℕ). c == k) clear_letters

fix_digit-is_clear : (c : ℕ) → is_plate_char c ≡ true → is_clear (fix_digit c) ≡ true
unfolding fix_digit lookup
fix_digit-is_clear c h = ground arith

-- A letter in the third place, and from the fifth on and in the first two places no letter that
-- looks like a digit.
abbrev pub HasShape : Text → Type 0
HasShape (a ∷ b ∷ c ∷ rest) =
    (is_clear a ≡ true)
    × (is_clear b ≡ true)
    × (is_letter c ≡ true)
    × Each (λ (d : ℕ). is_clear d ≡ true) (drop 1 rest)
HasShape s = ⊥

map-fix_digit-clear :
    (cs : Text) → IsPlain cs → Each (λ (d : ℕ). is_clear d ≡ true) (map fix_digit cs)
map-fix_digit-clear [] h = tt
map-fix_digit-clear (c ∷ cs) h = (fix_digit-is_clear c h.0, map-fix_digit-clear cs h.1)

-- The serial part begins at the fifth place at the latest.
serial_offset_bound : (n c : ℕ) (cs : Text) → serial_offset n c cs ≤ 1
unfolding serial_offset
serial_offset_bound n c [] = omega arith
serial_offset_bound n c (d ∷ cs) = ground arith

fix_serial-clear :
    (k : ℕ) (cs : Text)
    → k ≤ 1
    → IsPlain cs
    → Each (λ (d : ℕ). is_clear d ≡ true) (drop 1 (fix_serial k cs))
unfolding fix_serial
fix_serial-clear zero [] l h = tt
fix_serial-clear (suc k) [] l h = tt
fix_serial-clear zero (c ∷ cs) l h = map-fix_digit-clear cs h.1
fix_serial-clear (suc zero) (c ∷ cs) l h = map-fix_digit-clear cs h.1
fix_serial-clear (suc (suc k)) (c ∷ cs) l h = absurd (omega (arith, l))

correct_chars-HasShape :
    (n : ℕ) (s : Text) → IsPlain s → 7 ≤ length s → HasShape (correct_chars n s)
unfolding correct_chars
correct_chars-HasShape n [] p h = absurd (omega arith)
correct_chars-HasShape n (a ∷ []) p h = absurd (omega arith)
correct_chars-HasShape n (a ∷ b ∷ []) p h = absurd (omega arith)
correct_chars-HasShape n (a ∷ b ∷ c ∷ rest) p h = (
  fix_digit-is_clear a p.0,
  fix_digit-is_clear b p.1.0,
  fix_letter-is_letter c p.1.1.0,
  fix_serial-clear (serial_offset n (fix_letter c) rest) rest
      (serial_offset_bound n (fix_letter c) rest) p.1.1.1,
)

correct-HasShape :
    (s : Text)
    → IsPlain s
    → 7 ≤ length (correct_vietnamese_plate s)
    → length (correct_vietnamese_plate s) ≤ 9
    → HasShape (correct_vietnamese_plate s)
unfolding correct_vietnamese_plate
correct-HasShape s p h k =
    let lo : 7 ≤ length s = omega (arith, length-correct_vietnamese_plate s) in
    let hi : length s ≤ 9 = omega (arith, length-correct_vietnamese_plate s) in
    let e : (leb 7 (length s) && leb (length s) 9) ≡ true = ground arith in
    rw e (correct_chars-HasShape (length s) s p lo)

-- A corrected plate of 7 to 9 characters has a letter at its third place, and at its first two
-- places and from the fifth on only digits and the letters FHJKMNPRVWXY, which look like none.
pub normalize_plate-HasShape :
    (u : Unicode) (s : Text)
    → 7 ≤ length (normalize_plate u true s)
    → length (normalize_plate u true s) ≤ 9
    → HasShape (normalize_plate u true s)
unfolding normalize_plate
normalize_plate-HasShape u [] h k = absurd (omega arith)
normalize_plate-HasShape u (c ∷ s) h k =
    correct-HasShape (select is_plate_char (upper u (c ∷ s))) (select-IsPlain u (upper u (c ∷ s))) h
      k

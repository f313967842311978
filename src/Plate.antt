-- ===== src/Plate.antt =====
-- The plate rules of backend/app/alpr/utils.py, over code points.
pub mod Box
mod Chars
pub mod Rules
pub mod Shape
mod Tests
use vision_park_ai.Prelude.{
  ℕ, zero, suc, ◌-◌, Bool, true, false, not, ◌&&◌, ◌||◌, Option, none, some, List, [], ◌∷◌, leb,
  ◌==◌, if◌then◌else◌, length, select, any, map,
}
use vision_park_ai.Prelude.Text.{Text, codes, is_empty, is_letter, is_digit, Unicode, upper}

-- `DIGIT_TO_LETTER`
abbrev pub digit_letters : List (ℕ × ℕ)
digit_letters =
    (b'0', b'D')
    ∷ (b'1', b'T')
    ∷ (b'2', b'Z')
    ∷ (b'3', b'B')
    ∷ (b'4', b'A')
    ∷ (b'5', b'S')
    ∷ (b'6', b'G')
    ∷ (b'7', b'T')
    ∷ (b'8', b'B')
    ∷ (b'9', b'G')
    ∷ []

-- `LETTER_TO_DIGIT`
abbrev pub letter_digits : List (ℕ × ℕ)
letter_digits =
    (b'A', b'4')
    ∷ (b'B', b'8')
    ∷ (b'C', b'0')
    ∷ (b'D', b'0')
    ∷ (b'E', b'3')
    ∷ (b'G', b'6')
    ∷ (b'I', b'1')
    ∷ (b'L', b'1')
    ∷ (b'O', b'0')
    ∷ (b'Q', b'0')
    ∷ (b'S', b'5')
    ∷ (b'T', b'7')
    ∷ (b'U', b'0')
    ∷ (b'Z', b'2')
    ∷ []

-- `KNOWN_TWO_LETTER_SERIES`
abbrev pub known_series : List (ℕ × ℕ)
known_series =
    (b'L', b'D')
    ∷ (b'D', b'A')
    ∷ (b'M', b'K')
    ∷ (b'M', b'D')
    ∷ (b'M', b'E')
    ∷ (b'C', b'D')
    ∷ (b'N', b'G')
    ∷ (b'N', b'N')
    ∷ (b'K', b'T')
    ∷ []

-- A lookup in one of the two dictionaries of characters.
unfoldable pub lookup : ℕ → List (ℕ × ℕ) → Option ℕ
lookup c [] = none
lookup c ((k, v) ∷ t) = if c == k then some v else lookup c t

abbrev pub or_self : Option ℕ → ℕ → ℕ
or_self none c = c
or_self (some v) c = v

-- One round of the loops that make a character a digit.
pub fix_digit : ℕ → ℕ
fix_digit c = if is_digit c then c else or_self (lookup c letter_digits) c

-- The correction of the series character.
pub fix_letter : ℕ → ℕ
fix_letter c = if is_digit c then or_self (lookup c digit_letters) c else c

-- `str.isalpha`, for ASCII: the caller passes only A-Z and 0-9.
abbrev pub is_alpha : ℕ → Bool
is_alpha c = is_letter c || (leb 97 c && leb c 122)

-- The test for a series of two letters, on the third and fourth characters.
pub two_letter_series : ℕ → ℕ → Bool
two_letter_series c d =
    any (λ (p : ℕ × ℕ). c == p.0 && d == p.1) known_series
    || (is_alpha c && is_alpha d && not (is_digit d))

-- `num_start - 3`, for a plate of 7, 8 or 9 characters, from the corrected third character on.
pub serial_offset : ℕ → ℕ → Text → ℕ
serial_offset n c [] = 0
serial_offset n c (d ∷ rest) =
    if n == 7 then 0 else if n == 8 then (if two_letter_series c d then 1 else 0) else 1

-- `for i in range(num_start, n)`, on the characters from the fourth on.
pub fix_serial : ℕ → Text → Text
fix_serial zero cs = map fix_digit cs
fix_serial (suc k) [] = []
fix_serial (suc k) (c ∷ cs) = c ∷ fix_serial k cs

-- The three corrections, at a plate of length `n`.
pub correct_chars : ℕ → Text → Text
correct_chars n (a ∷ b ∷ c ∷ rest) =
    let series = fix_letter c in
    fix_digit a ∷ fix_digit b ∷ series ∷ fix_serial (serial_offset n series rest) rest
correct_chars n s = s

unfoldable pub correct_vietnamese_plate : Text → Text
correct_vietnamese_plate s =
    if leb 7 (length s) && leb (length s) 9 then correct_chars (length s) s else s

-- `[A-Z0-9]`
abbrev pub is_plate_char : ℕ → Bool
is_plate_char c = is_letter c || is_digit c

unfoldable pub normalize_plate : Unicode → Bool → Text → Text
normalize_plate u auto_correct plate =
    if is_empty plate
    then []
    else (let cleaned = select is_plate_char (upper u plate) in
        if auto_correct then correct_vietnamese_plate cleaned else cleaned)

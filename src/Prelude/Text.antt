-- ===== src/Prelude/Text.antt =====
-- Python strings as lists of code points, with the character tables as a parameter.
use Prim.Native.Nat.{ℕ, ◌-◌}
use Prim.Native.Char.{code}
use Prim.Native.String.{String}
use mathlib.Core.Path.{◌≡◌, refl}
use mathlib.Core.Logic.{◌↔◌}
use mathlib.Core.Bool.{Bool, true, false, ◌&&◌, ◌||◌}
use mathlib.Core.Option.{Option, none, some}
use mathlib.Core.List.{List, [], ◌∷◌, ◌++◌, reverse}
use native.Mathlib.Omega.{arith}
use vision_park_ai.Prelude.Tests.{leb, ◌==◌, if◌then◌else◌}

abbrev pub Text : Type 0
Text = List ℕ

-- The code points of a literal.
abbrev pub codes : String → Text
codes String.[] = []
codes (String.◌∷◌ c s) = code c ∷ codes s

abbrev pub text_eq : Text → Text → Bool
text_eq [] [] = true
text_eq [] (d ∷ t) = false
text_eq (c ∷ s) [] = false
text_eq (c ∷ s) (d ∷ t) = if c == d then text_eq s t else false

pub text_eq_refl : (s : Text) → text_eq s s ≡ true
text_eq_refl [] = refl
text_eq_refl (c ∷ s) = ground (arith, text_eq_refl s)

pub text_eq_sound : (s t : Text) → text_eq s t ≡ true → s ≡ t
text_eq_sound [] [] h = refl
text_eq_sound [] (d ∷ t) h = cc
text_eq_sound (c ∷ s) [] h = cc
text_eq_sound (c ∷ s) (d ∷ t) h = ground (arith, text_eq_sound s t)

pub text_eq_iff : (s t : Text) → (text_eq s t ≡ true) ↔ (s ≡ t)
text_eq_iff s t = (text_eq_sound s t, λ e. ground (arith, text_eq_refl s))

-- `o == t`, where nothing is equal to no text.
abbrev pub text_is : Option Text → Text → Bool
text_is none t = false
text_is (some s) t = text_eq s t

-- `not s`
abbrev pub is_empty : Text → Bool
is_empty [] = true
is_empty (c ∷ s) = false

abbrev pub is_letter : ℕ → Bool
is_letter c = leb 65 c && leb c 90

abbrev pub is_digit : ℕ → Bool
is_digit c = leb 48 c && leb c 57

-- What `str.upper` and `str.strip` take from the Unicode tables: the upper-case form of a
-- character, which is the character itself for A-Z and 0-9, and which characters are white space,
-- of which A-Z and 0-9 are none.
pub record Unicode : Type 0 where
  pub upper_char : ℕ → Text
  pub is_space : ℕ → Bool
  pub upper_fixed : (c : ℕ) → (is_letter c || is_digit c) ≡ true → upper_char c ≡ c ∷ []

abbrev pub upper : Unicode → Text → Text
upper u [] = []
upper u (c ∷ s) = u.upper_char c ++ upper u s

abbrev pub strip_left : Unicode → Text → Text
strip_left u [] = []
strip_left u (c ∷ s) = if u.is_space c then strip_left u s else c ∷ s

abbrev pub strip : Unicode → Text → Text
strip u s = reverse (strip_left u (reverse (strip_left u s)))

-- A text that is there and not empty: `if s`.
abbrev pub filled : Option Text → Option Text
filled none = none
filled (some s) = if is_empty s then none else some s

abbrev pub is_filled : Option Text → Bool
is_filled none = false
is_filled (some s) = if is_empty s then false else true

-- The tables on ASCII, for tests.
abbrev ascii_upper : ℕ → Text
ascii_upper c = (if leb 97 c && leb c 122 then c - 32 else c) ∷ []

abbrev ascii_space : ℕ → Bool
ascii_space c = c == 32 || (leb 9 c && leb c 13)

pub ascii_upper-fixed : (c : ℕ) → (is_letter c || is_digit c) ≡ true → ascii_upper c ≡ c ∷ []
ascii_upper-fixed c h = ground arith

abbrev pub ascii : Unicode
ascii = record { upper_char = ascii_upper; is_space = ascii_space; upper_fixed = ascii_upper-fixed }

-- ===== src/Clock.antt =====
-- Python's `datetime` as the backend uses it. Instants are microseconds from a fixed day in the
-- past; a zone is a fixed offset from UTC, kept as the offset plus one day so that it is a natural
-- number. A value without a zone is naive.
use native.Mathlib.Decide.{dec_lt}
use native.Mathlib.Nat.{div-add-mod', div-le_of_le-mul, mul-le-mul_right}
use vision_park_ai.Prelude.{
  ℕ, ◌+◌, ◌*◌, ◌/◌, ◌%◌, ◌≤◌, ◌<◌, ◌≡◌, ◌≢◌, Bool, true, false, Option, none, some, arith, ◌==◌,
  if◌then◌else◌,
}

pub record DateTime : Type 0 where
  pub instant : ℕ
  pub zone : Option ℕ

abbrev pub minute : ℕ
minute = 60000000

abbrev pub day : ℕ
day = 86400000000

-- `x.tzinfo is None`
abbrev pub is_naive : DateTime → Bool
is_naive d = elim d.zone [ none ↦ true | some _ ↦ false ]

-- UTC, whose biased offset is exactly one day.
abbrev pub utc : ℕ → DateTime
utc t = record { instant = t; zone = some day }

-- `x.replace(tzinfo=UTC)` on a naive value, the value itself otherwise.
abbrev pub assume_utc : DateTime → DateTime
assume_utc d = elim d.zone [ none ↦ record d { zone = some day } | some _ ↦ d ]

-- `x.astimezone(zone).date()` as a count of days.
abbrev pub local_day : ℕ → Option ℕ → ℕ
local_day t none = t / day
local_day t (some shift) = (t + shift) / day

-- `ceil(a / b)` for a, b in range of exact float division.
unfoldable pub ceil_div : ℕ → ℕ → ℕ
ceil_div a b = if a % b == 0 then a / b else a / b + 1

pub ceil_div-zero : (b : ℕ) → 0 < b → ceil_div 0 b ≡ 0
unfolding ceil_div
ceil_div-zero b h = ground arith

-- It is the least quotient that covers `a`.
pub ceil_div_covers : (a b : ℕ) → 0 < b → a ≤ ceil_div a b * b
unfolding ceil_div
ceil_div_covers a b h = grind arith

div-lt : (a b q : ℕ) → a % b ≢ 0 → a ≤ q * b → a / b < q
div-lt a b q h k = elim (dec_lt (a / b) q) [
  | yes p ↦ p
  | no p ↦
      absurd (omega (arith, div-add-mod' a b, mul-le-mul_right {m = q} {n = a / b} b (omega arith)))
]

pub ceil_div_least : (a b q : ℕ) → a ≤ q * b → ceil_div a b ≤ q
unfolding ceil_div
ceil_div_least a b q k = ground (arith, div-lt a b q, div-le_of_le-mul b {m = a} {n = q})

pub ceil_div_mono : (a c b : ℕ) → 0 < b → a ≤ c → ceil_div a b ≤ ceil_div c b
ceil_div_mono a c b h k = ceil_div_least a b (ceil_div c b) (omega (arith, ceil_div_covers c b h))

-- ===== src/Fee/Monotone.antt =====
-- A longer stay never costs less, and which calls of `calculate_fee` are refused.
use native.Mathlib.Nat.{mul-le-mul_left, mul-le-mul_right}
use vision_park_ai.Prelude.{
  ℕ, ◌+◌, ◌-◌, ◌*◌, ◌/◌, ◌≤◌, ◌<◌, max, ◌≡◌, ap, sym, ◌∙◌, Bool, false, inl, inr, arith,
  Option-cases,
}
use vision_park_ai.Prelude.Int.{pos, ◌≤ℤ◌}
use vision_park_ai.Errors.{ok}
use vision_park_ai.Clock.{DateTime, is_naive, minute, ceil_div_mono}
use vision_park_ai.Ticket.{TicketKind}
use vision_park_ai.Fee.Snapshot.{PriceSnapshot}
use vision_park_ai.Fee.{FeeResult, units, minutes_between, calculate_fee}
use vision_park_ai.Fee.Days.{day_total_mono}
use vision_park_ai.Fee.Formula.{
  duration_fee, parking_fee, PassIsAware, nights_between, gross_fee, discount_fee,
}
use vision_park_ai.Fee.Total.{calculate_fee_lem}

minutes_between_mono : (i o p : ℕ) → o ≤ p → minutes_between i o ≤ minutes_between i p
minutes_between_mono i o p h = ceil_div_mono (o - i) (p - i) minute (omega arith) (omega arith)

units_mono : (a b u : ℕ) → 0 < u → a ≤ b → units a u ≤ units b u
units_mono a b u h k = ground (arith, ceil_div_mono a b u h k)

module _ (s : PriceSnapshot) (blocks : 0 < s.block_minutes) where
  duration_fee_mono : (k : TicketKind) (a b : ℕ) → a ≤ b → duration_fee s k a ≤ duration_fee s k b
  duration_fee_mono TicketKind.daily a b h =
      mul-le-mul_right s.day_pass_fee (units_mono a b 1440 (omega arith) h)
  duration_fee_mono TicketKind.monthly a b h =
      mul-le-mul_right s.month_pass_fee (units_mono a b 43200 (omega arith) h)
  duration_fee_mono _ a b h = day_total_mono s blocks a b h

  parking_fee_mono : (i o p free : ℕ) → o ≤ p → parking_fee s i o free ≤ parking_fee s i p free
  parking_fee_mono i o p free h = elim (Option-cases s.entitlement_valid_until) [
    | inl e ↦ ground (
      arith,
      duration_fee_mono s.ticket_kind (minutes_between i o - free) (minutes_between i p - free)
          (omega (arith, minutes_between_mono i o p h)),
    )
    | inr (u, e) ↦ ground (
      arith,
      duration_fee_mono s.ticket_kind (minutes_between i o - free) (minutes_between i p - free)
          (omega (arith, minutes_between_mono i o p h)),
      day_total_mono s blocks (minutes_between (max i u.instant) o - free)
          (minutes_between (max i u.instant) p - free)
          (omega (arith, minutes_between_mono (max i u.instant) o p h)),
    )
  ]

discounted_mono : (p q d : ℕ) → d ≤ 100 → p ≤ q → p - p * d / 100 ≤ q - q * d / 100
discounted_mono p q d pct h = omega (
  arith,
  mul-le-mul_left {m = d} {n = 100} (q - p) pct,
  mul-le-mul_left {m = d} {n = 100} p pct,
  ap (λ (t : ℕ). t * d) (let e : q ≡ p + (q - p) = omega arith in e),
)

nights_between_mono :
    (s : PriceSnapshot) (i o p : DateTime)
    → o.instant ≤ p.instant
    → nights_between s i o ≤ nights_between s i p
nights_between_mono s i o p h = elim (Option-cases i.zone) [
  | inl e ↦ rw e (omega arith)
  | inr (z, e) ↦ rw e (omega arith)
]

net_fee_mono :
    (s : PriceSnapshot) (i o p : DateTime) (lost over : Bool) (extra : ℕ)
    → 0 < s.block_minutes
    → s.discount_percent ≤ 100
    → o.instant ≤ p.instant
    → gross_fee s i o lost over extra - discount_fee s i o extra
      ≤ gross_fee s i p lost over extra - discount_fee s i p extra
net_fee_mono s i o p lost over extra blocks pct h =
    let free = s.free_minutes + extra in
    let f = parking_fee s i.instant o.instant free in
    let g = parking_fee s i.instant p.instant free in
    let le : f ≤ g = parking_fee_mono s blocks i.instant o.instant p.instant free h in
    omega (
      arith,
      discounted_mono f g s.discount_percent pct le,
      le,
      mul-le-mul_left {m = s.discount_percent} {n = 100} f pct,
      mul-le-mul_left {m = s.discount_percent} {n = 100} g pct,
      mul-le-mul_right s.overnight_fee (nights_between_mono s i o p h),
    )

ok-injective : {a b : FeeResult} → ok a ≡ ok b → a ≡ b
ok-injective e = cc

-- With a snapshot of blocks of at least a minute, a discount of at most a hundred percent and an
-- aware pass end if any, of two stays that begin at the same time with the same flags the one that
-- ends later is not charged less.
pub calculate_fee_mono :
    (s : PriceSnapshot) (i o p : DateTime) (lost over : Bool) (extra : ℕ) (r t : FeeResult)
    → 0 < s.block_minutes
    → s.discount_percent ≤ 100
    → PassIsAware s
    → is_naive i ≡ false
    → is_naive o ≡ false
    → is_naive p ≡ false
    → i.instant ≤ o.instant
    → o.instant ≤ p.instant
    → calculate_fee s i o lost over (pos extra) ≡ ok r
    → calculate_fee s i p lost over (pos extra) ≡ ok t
    → r.total ≤ℤ t.total
calculate_fee_mono s i o p lost over extra r t blocks pct aware hi ho hp io op er et =
    let (x, ex, tx) = calculate_fee_lem s blocks aware i o lost over extra pct hi ho io in
    let (y, ey, ty) =
      calculate_fee_lem s blocks aware i p lost over extra pct hi hp (omega arith) in
    let rx : r ≡ x = ok-injective (sym er ∙ ex) in
    let sy : t ≡ y = ok-injective (sym et ∙ ey) in
    rw (rx, sy, tx, ty) (omega (arith, net_fee_mono s i o p lost over extra blocks pct op))

-- ===== src/Fee/Total.antt =====
-- What `calculate_fee` charges, against the plain formula.
use mathlib.Core.Path.{subst}
use vision_park_ai.Prelude.{
  ℕ, ◌+◌, ◌-◌, ◌*◌, ◌/◌, ◌≤◌, ◌<◌, max, ◌≡◌, refl, Bool, true, false, inl, inr, List, ◌++◌, arith,
  ltb, Bool-cases, Option-cases,
}
use vision_park_ai.Prelude.Int.{ltb_ℤ, pos, pos-sub}
use vision_park_ai.Errors.{ok}
use vision_park_ai.Clock.{DateTime, is_naive}
use vision_park_ai.Ticket.{TicketKind}
use vision_park_ai.Fee.Snapshot.{PriceSnapshot}
use vision_park_ai.Fee.{
  eligible_sum, percent_of, FeeLine, FeeResult, check_amounts, minutes_between, duration_lines,
  is_pass, base_lines, overnight_start, surcharges, sum_amounts, with_discount, fee_result,
  charge_lines, calculate_fee, day_lines, discount_lines, LineCode, is_eligible,
}
use vision_park_ai.Fee.Days.{
  day_total, sum_amounts-day_lines, eligible_sum-day_lines, check_amounts-day_lines,
}
use vision_park_ai.Fee.Formula.{
  duration_fee, parking_fee, night_start, nights_between, PassIsAware, gross_fee, discount_fee,
}
use vision_park_ai.Fee.Lines.{
  Adds, Adds-append, Adds-eligible, surcharges-Adds, sum_amounts-append, check_amounts-append,
  percent-le, sum_amounts-discount_lines, check_amounts-discount_lines,
}

module _ (s : PriceSnapshot) (blocks : 0 < s.block_minutes) where
  day_lines-Adds :
      (c : LineCode) (r : ℕ)
      → is_eligible c ≡ true
      → Adds (day_lines c s r r 0) (day_total s r) (day_total s r)
  day_lines-Adds c r h = record {
    whole = sum_amounts-day_lines s blocks c r r 0 (omega arith);
    part = eligible_sum-day_lines s blocks c r r 0 h (omega arith);
    fits = check_amounts-day_lines s c r r 0;
  }

  duration_lines-Adds :
      (k : TicketKind) (b : ℕ)
      → Adds (duration_lines s k b) (duration_fee s k b) (duration_fee s k b)
  unfolding duration_lines
  duration_lines-Adds TicketKind.daily b = Adds-eligible LineCode.day_pass _ _ refl
  duration_lines-Adds TicketKind.monthly b = Adds-eligible LineCode.month_pass _ _ refl
  duration_lines-Adds _ b = day_lines-Adds LineCode.parking_day b refl

  base_lines-Adds :
      (i o free : ℕ)
      → PassIsAware s
      → (ls : List FeeLine) × (base_lines s i o free ≡ ok ls)
        × Adds ls (parking_fee s i o free) (parking_fee s i o free)
  unfolding base_lines
  base_lines-Adds i o free h = elim (Option-cases s.entitlement_valid_until) [
    | inl e ↦
        let m = minutes_between i o - free in
        let f : parking_fee s i o free ≡ duration_fee s s.ticket_kind m = ground arith in
        (duration_lines s s.ticket_kind m, ground arith, rw f (duration_lines-Adds s.ticket_kind m))
    | inr (until, e) ↦ elim (Bool-cases (is_pass s.ticket_kind)) [
      | inl p ↦
          let m = minutes_between (max i until.instant) o - free in
          let f : parking_fee s i o free ≡ day_total s m = ground arith in
          (
            day_lines LineCode.pass_overage s m m 0,
            ground arith,
            rw f (day_lines-Adds LineCode.pass_overage m refl),
          )
      | inr p ↦
          let m = minutes_between i o - free in
          let f : parking_fee s i o free ≡ duration_fee s s.ticket_kind m = ground arith in
          (
            duration_lines s s.ticket_kind m,
            ground arith,
            rw f (duration_lines-Adds s.ticket_kind m),
          )
    ]
  ]

overnight_start_lem :
    (s : PriceSnapshot) (t : ℕ) → PassIsAware s → overnight_start s t ≡ ok (night_start s t)
unfolding overnight_start
overnight_start_lem s t h = ground arith

module _ (s : PriceSnapshot) (blocks : 0 < s.block_minutes) (aware : PassIsAware s) where
  charge_lines-Adds :
      (i o : DateTime) (lost over : Bool) (extra : ℕ)
      → (ls : List FeeLine) × (charge_lines s i o lost over extra ≡ ok ls)
        × Adds ls
            (gross_fee s i o lost over extra)
            (parking_fee s i.instant o.instant (s.free_minutes + extra) + 0)
  unfolding charge_lines
  charge_lines-Adds i o lost over extra =
      let (base, e, a) =
        base_lines-Adds s blocks i.instant o.instant (s.free_minutes + extra) aware in
      let n = nights_between s i o in
      (
        base ++ surcharges s n lost over,
        rw (e, overnight_start_lem s i.instant aware),
        Adds-append a (surcharges-Adds s n lost over),
      )

-- A discount of at most a hundred percent leaves lines that every validator accepts.
fee_result_lem :
    (s : PriceSnapshot) (ls : List FeeLine) (n m : ℕ)
    → s.discount_percent ≤ 100
    → m ≤ n
    → Adds ls n m
    → (r : FeeResult) × (fee_result s (with_discount s ls) ≡ ok r)
      × (r.total ≡ pos (n - m * s.discount_percent / 100))
unfolding fee_result with_discount
fee_result_lem s ls n m pct le a =
    let lines = with_discount s ls in
    let d = m * s.discount_percent / 100 in
    let total : sum_amounts lines ≡ pos (n - d) =
      rw
        (
          a.part,
          sum_amounts-append ls (discount_lines (pos d)),
          a.whole,
          sum_amounts-discount_lines d,
        )
        (pos-sub n d (omega (arith, percent-le m s.discount_percent pct))) in
    let fits : check_amounts lines ≡ true =
      check_amounts-append ls _ a.fits
        (check_amounts-discount_lines (percent_of (eligible_sum ls) s.discount_percent)) in
    let sign : ltb_ℤ (pos (n - d)) (pos 0) ≡ false = ground arith in
    (
      record { total = sum_amounts lines; price_version_id = s.version_id; lines = lines },
      rw (fits, total, sign),
      total,
    )

module _ (s : PriceSnapshot) (blocks : 0 < s.block_minutes) (aware : PassIsAware s) where
  -- For a discount of at most a hundred percent, times that are aware and in order, and extra minutes
  -- that are not negative a fee is returned, and its total is the plain formula.
  pub calculate_fee_lem :
      (i o : DateTime) (lost over : Bool) (extra : ℕ)
      → s.discount_percent ≤ 100
      → is_naive i ≡ false
      → is_naive o ≡ false
      → i.instant ≤ o.instant
      → (r : FeeResult) × (calculate_fee s i o lost over (pos extra) ≡ ok r)
        × (r.total ≡ pos (gross_fee s i o lost over extra - discount_fee s i o extra))
  unfolding calculate_fee
  calculate_fee_lem i o lost over extra pct hi ho le =
      let (ls, e, a) = charge_lines-Adds s blocks aware i o lost over extra in
      let p = parking_fee s i.instant o.instant (s.free_minutes + extra) in
      let z : p + 0 ≡ p = omega arith in
      let b : Adds ls (gross_fee s i o lost over extra) p =
        subst (λ m. Adds ls (gross_fee s i o lost over extra) m) z a in
      let (r, f, t) = fee_result_lem s ls _ p pct (omega arith) b in
      let order : ltb o.instant i.instant ≡ false = ground arith in
      let sign : ltb_ℤ (pos extra) (pos 0) ≡ false = ground arith in
      (r, rw (hi, ho, order, sign, e) f, t)

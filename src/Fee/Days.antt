-- ===== src/Fee/Days.antt =====
-- The loop over days of `calculate_fee`, against a closed form.
use vision_park_ai.Prelude.{
  ℕ, zero, suc, ◌+◌, ◌-◌, ◌*◌, ◌/◌, ◌%◌, ◌≤◌, ◌<◌, min, ◌≡◌, true, ◌≢◌, refl, ap, inl, inr, arith,
  ◌==◌, Bool-cases, length, List, ◌∷◌,
}
use vision_park_ai.Prelude.Int.{pos, pos-add}
use vision_park_ai.Clock.{ceil_div, ceil_div-zero, ceil_div_mono}
use vision_park_ai.Fee.Snapshot.{PriceSnapshot}
use vision_park_ai.Fee.{
  LineCode, FeeLine, charge, chunk_fee, day_lines, sum_amounts, eligible_sum, is_eligible,
  check_amounts,
}
use native.Mathlib.Decide.{dec_lt}
use native.Mathlib.Nat.{mul-le-mul_right}

-- What `remaining` minutes cost: each full day at the fee of a day, and the rest of the last day.
abbrev pub day_total : PriceSnapshot → ℕ → ℕ
day_total s remaining = remaining / 1440 * chunk_fee s 1440 + chunk_fee s (remaining % 1440)

-- The loop over days ends by its own test: any two amounts of fuel that reach the minutes left
-- give the same lines.
pub day_lines_enough :
    (s : PriceSnapshot) (code : LineCode) (fuel other r i : ℕ)
    → r ≤ fuel
    → r ≤ other
    → day_lines code s fuel r i ≡ day_lines code s other r i
unfolding day_lines
day_lines_enough s code zero zero r i h k = refl
day_lines_enough s code zero (suc other) r i h k = let e : r ≡ 0 = omega arith in rw e refl
day_lines_enough s code (suc fuel) zero r i h k = let e : r ≡ 0 = omega arith in rw e refl
day_lines_enough s code (suc fuel) (suc other) r i h k = elim (Bool-cases (r == 0)) [
  | inl e ↦ rw e refl
  | inr e ↦
      let n : r ≢ 0 = ground (arith, e) in
      rw e (
        ap (λ (l : List FeeLine). charge code (chunk_fee s (min r 1440)) (i + 1) ∷ l)
          (day_lines_enough s code fuel other (r - min r 1440) (i + 1) (omega arith) (omega arith)))
]

module _ (s : PriceSnapshot) (blocks : 0 < s.block_minutes) where
  pub chunk_fee-zero : chunk_fee s 0 ≡ 0
  unfolding chunk_fee
  chunk_fee-zero = ground (arith, ceil_div-zero s.block_minutes blocks)

  pub chunk_fee_mono : (a b : ℕ) → a ≤ b → chunk_fee s a ≤ chunk_fee s b
  unfolding chunk_fee
  chunk_fee_mono a b h = ground (
    arith,
    mul-le-mul_right s.block_fee (
        ceil_div_mono (a - s.initial_minutes) (b - s.initial_minutes) s.block_minutes blocks
          (omega arith)),
    ceil_div-zero s.block_minutes blocks,
  )

  day_total-small : (r : ℕ) → r < 1440 → day_total s r ≡ chunk_fee s r
  day_total-small r h =
      let q : r / 1440 ≡ 0 = omega arith in
      let m : r % 1440 ≡ r = omega arith in rw (q, m) (omega arith)

  day_total-more : (r : ℕ) → 1440 ≤ r → chunk_fee s 1440 + day_total s (r - 1440) ≡ day_total s r
  day_total-more r h =
      let q : r / 1440 ≡ suc ((r - 1440) / 1440) = omega arith in
      let m : r % 1440 ≡ (r - 1440) % 1440 = omega arith in rw (q, m) (omega arith)

  day_total-step :
      (r : ℕ) → r ≢ 0 → chunk_fee s (min r 1440) + day_total s (r - min r 1440) ≡ day_total s r
  day_total-step r h = elim (dec_lt r 1440) [
    | yes p ↦
        let e : min r 1440 ≡ r = omega arith in
        let d : r - r ≡ 0 = omega arith in
        rw (e, d)
          (omega (arith, day_total-small r p, day_total-small 0 (omega arith), chunk_fee-zero))
    | no p ↦ let e : min r 1440 ≡ 1440 = omega arith in rw e (day_total-more r (omega arith))
  ]

  -- With as much fuel as there are minutes the lines of the loop add up to the closed form.
  pub sum_amounts-day_lines :
      (code : LineCode) (fuel r i : ℕ)
      → r ≤ fuel
      → sum_amounts (day_lines code s fuel r i) ≡ pos (day_total s r)
  unfolding day_lines sum_amounts
  sum_amounts-day_lines code zero r i h =
      let e : r ≡ 0 = omega arith in
      rw e (ap pos (omega (arith, day_total-small 0 (omega arith), chunk_fee-zero)))
  sum_amounts-day_lines code (suc fuel) r i h = elim (Bool-cases (r == 0)) [
    | inl e ↦
        let z : r ≡ 0 = ground arith in
        rw z (ap pos (omega (arith, day_total-small 0 (omega arith), chunk_fee-zero)))
    | inr e ↦
        rw (e, sum_amounts-day_lines code fuel (r - min r 1440) (i + 1) (ground arith), pos-add)
          (ap pos (omega (arith, day_total-step r (ground arith))))
  ]

  -- The lines of the loop carry one code, so all of them count for a discount, or none does.
  pub eligible_sum-day_lines :
      (code : LineCode) (fuel r i : ℕ)
      → is_eligible code ≡ true
      → r ≤ fuel
      → eligible_sum (day_lines code s fuel r i) ≡ pos (day_total s r)
  unfolding day_lines eligible_sum
  eligible_sum-day_lines code zero r i c h =
      let e : r ≡ 0 = omega arith in
      rw e (ap pos (omega (arith, day_total-small 0 (omega arith), chunk_fee-zero)))
  eligible_sum-day_lines code (suc fuel) r i c h = elim (Bool-cases (r == 0)) [
    | inl e ↦
        let z : r ≡ 0 = ground arith in
        rw z (ap pos (omega (arith, day_total-small 0 (omega arith), chunk_fee-zero)))
    | inr e ↦
        rw
          (
            e,
            c,
            eligible_sum-day_lines code fuel (r - min r 1440) (i + 1) c (ground arith),
            pos-add,
          )
          (ap pos (omega (arith, day_total-step r (ground arith))))
  ]

  -- A longer stay costs no less.
  pub day_total_mono : (a b : ℕ) → a ≤ b → day_total s a ≤ day_total s b
  day_total_mono a b h = elim (dec_lt (a / 1440) (b / 1440)) [
    | yes p ↦ omega (
      arith,
      mul-le-mul_right {m = suc (a / 1440)} {n = b / 1440} (chunk_fee s 1440) p,
      chunk_fee_mono (a % 1440) 1440 (omega arith),
    )
    | no p ↦
        let q : a / 1440 ≡ b / 1440 = omega arith in
        rw q (omega (arith, chunk_fee_mono (a % 1440) (b % 1440) (omega arith)))
  ]

  -- One line for each day begun, and every line passes the validator of `FeeLine`.
  pub length-day_lines :
      (code : LineCode) (fuel r i : ℕ)
      → r ≤ fuel
      → length (day_lines code s fuel r i) ≡ ceil_div r 1440
  unfolding day_lines ceil_div
  length-day_lines code zero r i h = ground arith
  length-day_lines code (suc fuel) r i h =
      ground (arith, length-day_lines code fuel (r - min r 1440) (i + 1))

pub check_amounts-day_lines :
    (s : PriceSnapshot) (code : LineCode) (fuel r i : ℕ)
    → check_amounts (day_lines code s fuel r i) ≡ true
unfolding day_lines
check_amounts-day_lines s code zero r i = refl
check_amounts-day_lines s code (suc fuel) r i =
    ground (arith, check_amounts-day_lines s code fuel (r - min r 1440) (i + 1))

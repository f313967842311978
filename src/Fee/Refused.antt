-- ===== src/Fee/Refused.antt =====
-- When `calculate_fee` raises.
use vision_park_ai.Prelude.{
  ◌<◌, ◌≤◌, ◌≡◌, ◌⊎◌, ◌↔◌, refl, sym, ◌∙◌, Bool, true, false, ◌||◌, inl, inr, arith, ltb,
  Bool-cases,
}
use vision_park_ai.Prelude.Int.{ℤ, pos, negsuc, ◌≤ℤ◌, ltb_ℤ}
use vision_park_ai.Errors.{Result, raise, value_error, raise_if, ◌>>◌}
use vision_park_ai.Clock.{DateTime, is_naive}
use vision_park_ai.Fee.Snapshot.{PriceSnapshot}
use vision_park_ai.Fee.{calculate_fee}
use vision_park_ai.Fee.Formula.{PassIsAware}
use vision_park_ai.Fee.Total.{calculate_fee_lem}

three_guards {ℓ} :
    {A : Type ℓ} (a b c : Bool) (k : Result A)
    → ((a || b) || c) ≡ true
    → (raise_if a value_error >> (raise_if b value_error >> (raise_if c value_error >> k)))
      ≡ raise value_error
three_guards true b c k h = refl
three_guards false true c k h = refl
three_guards false false true k h = refl
three_guards false false false k h = cc

calculate_fee_invalid :
    (s : PriceSnapshot) (i o : DateTime) (lost over : Bool) (extra : ℤ)
    → (((is_naive i || is_naive o) || ltb o.instant i.instant) || ltb_ℤ extra (pos 0)) ≡ true
    → calculate_fee s i o lost over extra ≡ raise value_error
unfolding calculate_fee
calculate_fee_invalid s i o lost over extra h =
    three_guards (is_naive i || is_naive o) (ltb o.instant i.instant) (ltb_ℤ extra (pos 0)) _ h

-- What is wrong with a call: a naive time, times in the wrong order, or negative extra minutes.
abbrev pub IsWrong : DateTime → DateTime → ℤ → Type 0
IsWrong i o extra =
    (is_naive i ≡ true) ⊎ (is_naive o ≡ true) ⊎ (o.instant < i.instant) ⊎ (extra ≤ℤ negsuc 0)

wrong_guards :
    (i o : DateTime) (extra : ℤ)
    → IsWrong i o extra
    → (((is_naive i || is_naive o) || ltb o.instant i.instant) || ltb_ℤ extra (pos 0)) ≡ true
wrong_guards i o extra (inl a) = rw a refl
wrong_guards i o extra (inr (inl a)) = ground (arith, a)
wrong_guards i o extra (inr (inr (inl a))) = ground (arith, a)
wrong_guards i o extra (inr (inr (inr a))) = ground (arith, a)

module _ (s : PriceSnapshot) (blocks : 0 < s.block_minutes) (pct : s.discount_percent ≤ 100)
    (aware : PassIsAware s) (i o : DateTime) (lost over : Bool) where
  -- Where nothing is wrong, there is a fee.
  refused-IsWrong :
      (extra : ℤ) → calculate_fee s i o lost over extra ≡ raise value_error → IsWrong i o extra
  refused-IsWrong (negsuc n) h = inr (inr (inr (omega arith)))
  refused-IsWrong (pos n) h = elim (Bool-cases (is_naive i)) [
    | inl a ↦ inl a
    | inr a ↦ elim (Bool-cases (is_naive o)) [
      | inl b ↦ inr (inl b)
      | inr b ↦ elim (Bool-cases (ltb o.instant i.instant)) [
        | inl c ↦ inr (inr (inl (ground (arith, c))))
        | inr c ↦
            let (r, e, _) =
              calculate_fee_lem s blocks aware i o lost over n pct a b (ground (arith, c)) in
            cc (sym h ∙ e)
      ]
    ]
  ]

-- With a snapshot of blocks of at least a minute, a discount of at most a hundred percent and an
-- aware pass end if any, calculate_fee raises a ValueError exactly when one of its times is naive,
-- the second comes before the first, or the extra minutes are negative.
pub calculate_fee_refused :
    (s : PriceSnapshot) (i o : DateTime) (lost over : Bool) (extra : ℤ)
    → 0 < s.block_minutes
    → s.discount_percent ≤ 100
    → PassIsAware s
    → (calculate_fee s i o lost over extra ≡ raise value_error) ↔ IsWrong i o extra
calculate_fee_refused s i o lost over extra blocks pct aware = (
  refused-IsWrong s blocks pct aware i o lost over extra,
  λ w. calculate_fee_invalid s i o lost over extra (wrong_guards i o extra w),
)

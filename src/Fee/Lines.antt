-- ===== src/Fee/Lines.antt =====
-- Sums over lists of fee lines.
use mathlib.Core.Path.{subst}
use native.Mathlib.Nat.{div-le_of_le-mul, mul-le-mul_left}
use vision_park_ai.Prelude.{
  ℕ, ◌+◌, ◌*◌, ◌/◌, ◌≤◌, ◌≡◌, refl, ap, Bool, true, false, inl, inr, List, [], ◌∷◌, ◌++◌, arith,
  ltb, ◌==◌, if◌then◌else◌, Bool-cases,
}
use vision_park_ai.Prelude.Int.{ℤ, pos, ◌+ℤ◌, ◌-ℤ◌, int_laws, pos-add}
use vision_park_ai.Fee.Snapshot.{PriceSnapshot}
use vision_park_ai.Fee.{
  FeeLine, check_amounts, surcharge, surcharges, sum_amounts, eligible_sum, discount_lines,
  LineCode, is_eligible, charge,
}
use vision_park_ai.Fee.Formula.{surcharge_fee}

-- The lines add up to `n`, the part of them that a discount counts is `m`, and each is valid.
pub record Adds (ls : List FeeLine) (n m : ℕ) : Type 0 where
  pub whole : sum_amounts ls ≡ pos n
  pub part : eligible_sum ls ≡ pos m
  pub fits : check_amounts ls ≡ true

pub sum_amounts-append :
    (xs ys : List FeeLine) → sum_amounts (xs ++ ys) ≡ sum_amounts xs +ℤ sum_amounts ys
unfolding sum_amounts
sum_amounts-append [] ys = omega int_laws
sum_amounts-append (x ∷ xs) ys = rw (sum_amounts-append xs ys) (omega int_laws)

eligible_sum-append :
    (xs ys : List FeeLine) → eligible_sum (xs ++ ys) ≡ eligible_sum xs +ℤ eligible_sum ys
unfolding eligible_sum
eligible_sum-append [] ys = omega int_laws
eligible_sum-append (x ∷ xs) ys = elim (Bool-cases (is_eligible x.code)) [
  | inl e ↦ rw (e, eligible_sum-append xs ys) (omega int_laws)
  | inr e ↦ rw (e, eligible_sum-append xs ys)
]

pub check_amounts-append :
    (xs ys : List FeeLine)
    → check_amounts xs ≡ true
    → check_amounts ys ≡ true
    → check_amounts (xs ++ ys) ≡ true
check_amounts-append [] ys h k = k
check_amounts-append (x ∷ xs) ys h k = ground (arith, check_amounts-append xs ys)

pub Adds-append :
    {xs ys : List FeeLine} {a b c d : ℕ}
    → Adds xs a b
    → Adds ys c d
    → Adds (xs ++ ys) (a + c) (b + d)
Adds-append {xs} {ys} {a} {b} {c} {d} h k = record {
  whole = rw (sum_amounts-append xs ys, h.whole, k.whole) (pos-add a c);
  part = rw (eligible_sum-append xs ys, h.part, k.part) (pos-add b d);
  fits = check_amounts-append xs ys h.fits k.fits;
}

Adds-nil : Adds [] 0 0
unfolding sum_amounts eligible_sum
Adds-nil = record { whole = refl; part = refl; fits = refl }

-- One line that no discount counts.
Adds-charge : (c : LineCode) (a q : ℕ) → is_eligible c ≡ false → Adds (charge c a q ∷ []) a 0
unfolding sum_amounts eligible_sum
Adds-charge c a q h = record {
  whole = rw pos-add (ap pos (omega arith));
  part = rw h;
  fits = ground arith;
}

-- One line that a discount counts.
pub Adds-eligible : (c : LineCode) (a q : ℕ) → is_eligible c ≡ true → Adds (charge c a q ∷ []) a a
unfolding sum_amounts eligible_sum
Adds-eligible c a q h = record {
  whole = rw pos-add (ap pos (omega arith));
  part = rw (h, pos-add) (ap pos (omega arith));
  fits = ground arith;
}

surcharge-Adds :
    (due : Bool) (c : LineCode) (fee q : ℕ)
    → is_eligible c ≡ false
    → Adds (surcharge due c fee q) (if due then q * fee else 0) 0
surcharge-Adds false c fee q h = Adds-nil
surcharge-Adds true c fee q h = elim (Bool-cases (ltb 0 fee)) [
  | inl e ↦ rw e (Adds-charge c (q * fee) q h)
  | inr e ↦ let z : fee ≡ 0 = ground arith in let n : q * 0 ≡ 0 = omega arith in rw (z, n) Adds-nil
]

due_fee : (n f : ℕ) → (if ltb 0 n then n * f else 0) ≡ n * f
due_fee n f = elim (Bool-cases (ltb 0 n)) [
  | inl e ↦ rw e
  | inr e ↦ let z : n ≡ 0 = ground arith in rw z (omega arith)
]

pub surcharges-Adds :
    (s : PriceSnapshot) (nights : ℕ) (lost over : Bool)
    → Adds (surcharges s nights lost over) (surcharge_fee s nights lost over) 0
unfolding surcharges
surcharges-Adds s nights lost over =
    let all =
      Adds-append (surcharge-Adds (ltb 0 nights) LineCode.overnight s.overnight_fee nights refl) (
        Adds-append (surcharge-Adds lost LineCode.lost_ticket s.lost_ticket_fee 1 refl)
          (surcharge-Adds over LineCode.overtime s.overtime_fee 1 refl)) in
    subst (λ n. Adds (surcharges s nights lost over) n 0)
      (rw (due_fee nights s.overnight_fee) (ground arith)) all

pub percent-le : (m p : ℕ) → p ≤ 100 → m * p / 100 ≤ m
percent-le m p h = div-le_of_le-mul 100 (omega (arith, mul-le-mul_left {m = p} {n = 100} m h))

pub sum_amounts-discount_lines : (d : ℕ) → sum_amounts (discount_lines (pos d)) ≡ pos 0 -ℤ pos d
unfolding sum_amounts
sum_amounts-discount_lines d = elim (Bool-cases (d == 0)) [
  | inl e ↦ let z : d ≡ 0 = ground arith in rw z (omega int_laws)
  | inr e ↦ rw e (omega int_laws)
]

pub check_amounts-discount_lines : (d : ℤ) → check_amounts (discount_lines d) ≡ true
check_amounts-discount_lines d = ground arith

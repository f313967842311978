-- ===== src/Pricing/Newest.antt =====
-- The newest version, and the rows of a version that is made.
use vision_park_ai.Prelude.{
  ℕ, ◌+◌, ◌≡◌, refl, Bool, false, Option, none, some, inl, inr, List, [], ◌∷◌, ◌++◌, select,
  Bool-cases, Option-cases, Each,
}
use vision_park_ai.Errors.{ok, Result-cases, ok_injective}
use vision_park_ai.Tables.{find}
use vision_park_ai.Pricing.{
  CustomerClass, PricingVersion, PricingRule, PricingRuleInput, is_newer, newer, newest, class_of,
  rule_rows,
}
use mathlib.Core.Path.{subst}

module _ (P : PricingVersion → Type 0) where
  newer-holds :
      (v : PricingVersion) (w : Option PricingVersion)
      → P v
      → ((x : PricingVersion) → w ≡ some x → P x)
      → P (newer v w)
  newer-holds v none h k = h
  newer-holds v (some w) h k = elim (Bool-cases (is_newer w v)) [
    | inl a ↦ rw a (k w refl)
    | inr a ↦ rw a h
  ]

  -- What holds of each version holds of the newest.
  pub newest-Each :
      (vs : List PricingVersion) (x : PricingVersion) → Each P vs → newest vs ≡ some x → P x
  unfolding newest
  newest-Each [] x h e = cc
  newest-Each (v ∷ vs) x h e =
      let same : newer v (newest vs) ≡ x = cc e in
      subst P same (newer-holds v (newest vs) h.0 (λ y k. newest-Each vs y h.1 k))

pub select-Each {ℓ κ} :
    {A : Type ℓ} (P : A → Type κ) (p : A → Bool) (xs : List A) → Each P xs → Each P (select p xs)
select-Each P p [] h = tt
select-Each P p (x ∷ xs) h = elim (Bool-cases (p x)) [
  | inl a ↦ rw a (h.0, select-Each P p xs h.1)
  | inr a ↦ rw a (select-Each P p xs h.1)
]

-- Rows that no test sees may stand before the others.
pub find-append_unseen {ℓ} :
    {A : Type ℓ} (q : A → Bool) (xs ys : List A)
    → Each (λ (x : A). q x ≡ false) xs
    → find q (xs ++ ys) ≡ find q ys
unfolding find
find-append_unseen q [] ys h = refl
find-append_unseen q (x ∷ xs) ys h = rw h.0 (find-append_unseen q xs ys h.1)

-- The rows of a version name it.
pub rule_rows-version_id :
    (b version_id : ℕ) (classes : List CustomerClass) (id : ℕ) (rs : List PricingRuleInput)
    (rows : List PricingRule)
    → rule_rows b version_id classes id rs ≡ ok rows
    → Each (λ (r : PricingRule). r.version_id ≡ version_id) rows
unfolding rule_rows
rule_rows-version_id b version_id classes id [] rows h =
    subst (Each (λ (r : PricingRule). r.version_id ≡ version_id)) (ok_injective h) tt
rule_rows-version_id b version_id classes id (r ∷ rs) rows h =
    elim (Option-cases (find (class_of r.customer_class_id b) classes)) [
      | inl a ↦ cc (rw a at h)
      | inr (c, a) ↦ elim (Result-cases (rule_rows b version_id classes (id + 1) rs)) [
        | inr (x, e) ↦ cc (rw (a, e) at h)
        | inl (more, e) ↦
            subst (Each (λ (r : PricingRule). r.version_id ≡ version_id))
              (ok_injective (rw (a, e) at h))
              (refl, rule_rows-version_id b version_id classes (id + 1) rs more e)
      ]
    ]

-- ===== src/Tables.antt =====
-- Database tables as lists of rows, in the order of a query: the first row that passes a test, and
-- a change of that row.
use vision_park_ai.Prelude.{
  ◌≡◌, ◌⊎◌, refl, sym, ap, Bool, true, Option, none, some, inl, inr, List, [], ◌∷◌, arith,
  if◌then◌else◌, Bool-cases, Each, false, select,
}

module _ {ℓ} {A : Type ℓ} where
  -- `db.scalar(select(…).where(…))`
  unfoldable pub find : (A → Bool) → List A → Option A
  find p [] = none
  find p (x ∷ xs) = if p x then some x else find p xs

  -- A change of the row that `find` returns.
  unfoldable pub update_first : (A → Bool) → (A → A) → List A → List A
  update_first p f [] = []
  update_first p f (x ∷ xs) = if p x then f x ∷ xs else x ∷ update_first p f xs

  pub find_test : (p : A → Bool) (xs : List A) {x : A} → find p xs ≡ some x → p x ≡ true
  unfolding find
  find_test p [] h = cc
  find_test p (y ∷ ys) h = elim (Bool-cases (p y)) [
    | inl e ↦ ground (arith, e)
    | inr e ↦ find_test p ys (rw e at h)
  ]

  -- The changed row is found again, if it still passes the test.
  pub find-update_first :
      (p : A → Bool) (f : A → A) (xs : List A) (x : A)
      → find p xs ≡ some x
      → p (f x) ≡ true
      → find p (update_first p f xs) ≡ some (f x)
  unfolding find update_first
  find-update_first p f [] x h k = cc
  find-update_first p f (y ∷ ys) x h k = elim (Bool-cases (p y)) [
    | inl e ↦ let same : y ≡ x = cc (rw e at h) in rw (e, same, k)
    | inr e ↦ rw (e, e) (find-update_first p f ys x (rw e at h) k)
  ]

module _ {ℓ} {A : Type ℓ} (q r : A → Bool) (f : A → A) (keeps : (x : A) → q (f x) ≡ q x) where
  -- A change that another test does not see leaves its row found, changed or not.
  pub find-update_other :
      (xs : List A) (x : A)
      → find q xs ≡ some x
      → (y : A) × (find q (update_first r f xs) ≡ some y) × ((y ≡ x) ⊎ (y ≡ f x))
  unfolding find update_first
  find-update_other [] x h = cc
  find-update_other (z ∷ zs) x h = elim (Bool-cases (q z)) [
    | inl a ↦
        let same : z ≡ x = cc (rw a at h) in
        elim (Bool-cases (r z)) [
          | inl b ↦ (f z, rw (b, keeps z, a), inr (ap f same))
          | inr b ↦ (z, rw (b, a), inl same)
        ]
    | inr a ↦ elim (Bool-cases (r z)) [
      | inl b ↦ (x, rw (b, keeps z, a) (rw a at h), inl refl)
      | inr b ↦ let (y, e, c) = find-update_other zs x (rw a at h) in (y, rw (b, a) e, c)
    ]
  ]

module _ {ℓ κ} {A : Type ℓ} (P : A → Type κ) where
  pub find-Each : (p : A → Bool) (xs : List A) {x : A} → Each P xs → find p xs ≡ some x → P x
  unfolding find
  find-Each p [] h e = cc
  find-Each p (y ∷ ys) {x} h e = elim (Bool-cases (p y)) [
    | inl q ↦ let same : x ≡ y = cc (rw q at e) in rw same h.0
    | inr q ↦ find-Each p ys h.1 (rw q at e)
  ]

  pub update_first-Each :
      (p : A → Bool) (f : A → A) (xs : List A)
      → Each P xs
      → ((x : A) → P x → p x ≡ true → P (f x))
      → Each P (update_first p f xs)
  unfolding update_first
  update_first-Each p f [] h k = tt
  update_first-Each p f (y ∷ ys) h k = elim (Bool-cases (p y)) [
    | inl q ↦ rw q (k y h.0 q, h.1)
    | inr q ↦ rw q (h.0, update_first-Each p f ys h.1 k)
  ]

module _ {ℓ} {A : Type ℓ} (p : A → Bool) where
  -- Of two writes to the same row the second stays.
  pub update_first_twice :
      (x y : A)
      → p x ≡ true
      → (xs : List A)
      → update_first p (λ (_ : A). y) (update_first p (λ (_ : A). x) xs)
        ≡ update_first p (λ (_ : A). y) xs
  unfolding update_first
  update_first_twice x y h [] = refl
  update_first_twice x y h (z ∷ zs) = elim (Bool-cases (p z)) [
    | inl e ↦ rw (e, h) refl
    | inr e ↦ rw (e, e) (ap (λ l. z ∷ l) (update_first_twice x y h zs))
  ]

  -- A write that another test does not see, before or after, changes nothing that it finds.
  pub find-update_unseen :
      (q : A → Bool) (y : A)
      → q y ≡ false
      → ((x : A) → p x ≡ true → q x ≡ false)
      → (xs : List A) → find q (update_first p (λ (_ : A). y) xs) ≡ find q xs
  unfolding find update_first
  find-update_unseen q y h k [] = refl
  find-update_unseen q y h k (z ∷ zs) = elim (Bool-cases (p z)) [
    | inl e ↦ rw (e, h, k z e) refl
    | inr e ↦ elim (Bool-cases (q z)) [
      | inl f ↦ rw (e, f) refl
      | inr f ↦ rw (e, f) (find-update_unseen q y h k zs)
    ]
  ]

  -- A row that is written so that it passes a test which none passed is the one that is found.
  pub find-update_new :
      (q : A → Bool) (y : A)
      → q y ≡ true
      → (xs : List A) {x : A} → find q xs ≡ none
      → find p xs ≡ some x
      → find q (update_first p (λ (_ : A). y) xs) ≡ some y
  unfolding find update_first
  find-update_new q y h [] e f = cc
  find-update_new q y h (z ∷ zs) e f = elim (Bool-cases (q z)) [
    | inl a ↦ cc (rw a at e)
    | inr a ↦ elim (Bool-cases (p z)) [
      | inl b ↦ rw (b, h) refl
      | inr b ↦ rw (b, a) (find-update_new q y h zs (rw a at e) (rw b at f))
    ]
  ]

  -- A change of the row that two tests find is seen by the other test, if the row still passes it.
  pub find-update_same :
      (q : A → Bool) (f : A → A) (xs : List A) (x : A)
      → find p xs ≡ some x
      → find q xs ≡ some x
      → q (f x) ≡ true
      → find q (update_first p f xs) ≡ some (f x)
  unfolding find update_first
  find-update_same q f [] x h k e = cc
  find-update_same q f (z ∷ zs) x h k e = elim (Bool-cases (p z)) [
    | inl a ↦ let same : z ≡ x = cc (rw a at h) in rw (a, same, e) refl
    | inr a ↦ elim (Bool-cases (q z)) [
      | inl b ↦
          let same : z ≡ x = cc (rw b at k) in
          let seen : p x ≡ true = find_test p zs (rw a at h) in
          let unseen : p x ≡ false = rw same at a in cc
      | inr b ↦ rw (a, b) (find-update_same q f zs x (rw a at h) (rw b at k) e)
    ]
  ]

  -- The only row that passes a test is a row, and passes it.
  pub select_single :
      (P : A → Type 0) (xs : List A) (x : A) → Each P xs → select p xs ≡ x ∷ [] → P x × (p x ≡ true)
  select_single P [] x h e = cc
  select_single P (z ∷ zs) x h e = elim (Bool-cases (p z)) [
    | inl a ↦ let same : z ≡ x = cc (rw a at e) in rw (sym same) (h.0, a)
    | inr a ↦ select_single P zs x h.1 (rw a at e)
  ]

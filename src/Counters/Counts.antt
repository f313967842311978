-- ===== src/Counters/Counts.antt =====
-- What the operations do to the count of their slot.
use vision_park_ai.Prelude.{
  ℕ, ◌-◌, ◌≡◌, ◌↔◌, sym, ap, ◌∙◌, Bool, true, false, Option, some, inl, inr, arith, if◌then◌else◌,
  Bool-cases,
}
use mathlib.Core.Path.{subst}
use vision_park_ai.Prelude.Int.{ℤ, pos, negsuc, ◌+ℤ◌, ◌-ℤ◌, ◌≤ℤ◌, ltb_ℤ, leb_ℤ, int_laws}
use vision_park_ai.Prelude.Text.{Text, Unicode, upper}
use vision_park_ai.Errors.{ok, raise, app_error, capacity_full}
use vision_park_ai.Capacity.{CapacityQuotaConfig, calculate_effective_capacity_limit}
use vision_park_ai.Counters.{
  ParkingCounter, CounterStore, get_or_create_counter, write_occupied, post, increment_atomic,
  decrement_atomic, decremented,
}
use vision_park_ai.Counters.Slots.{
  occupancy, same_slot_refl, occupancy-write_occupied, get_or_create_counter-Got,
}
use vision_park_ai.Counters.Balance.{increment_atomic-IsBalanced, recorded, IsBalanced}

pub leb_of : (a b : ℤ) → a ≤ℤ b → leb_ℤ a b ≡ true
leb_of a b h = ground arith

not_leb_of : (a b : ℤ) → b +ℤ pos 1 ≤ℤ a → leb_ℤ a b ≡ false
unfolding ◌+ℤ◌
not_leb_of a b h = ground arith

added :
    (refreshes : Bool) (n m : ℤ)
    → n ≡ m
    → (if refreshes then n +ℤ pos 1 else n) +ℤ pos 1 ≡ m +ℤ (if refreshes then pos 2 else pos 1)
added true n m h = grind int_laws
added false n m h = rw h

taken :
    (refreshes : Bool) (n : ℕ) (m : ℤ)
    → m ≡ pos n
    → (let held = if refreshes then decremented m else m in
        if ltb_ℤ (pos 0) held then held -ℤ pos 1 else decremented m)
      ≡ pos (n - (if refreshes then 2 else 1))
unfolding ◌-ℤ◌
taken true n m h = rw h (ground arith)
taken false n m h = rw h (ground arith)

less_than_nothing :
    (refreshes : Bool) → ¬ (pos (0 - (if refreshes then 2 else 1)) ≡ negsuc 0 +ℤ pos 0)
unfolding ◌+ℤ◌
less_than_nothing true h = cc
less_than_nothing false h = cc

one_too_many : (n : ℤ) → n +ℤ pos 2 ≡ pos 1 +ℤ n → ⊥
one_too_many n h = grind int_laws

module _ (u : Unicode) (id : ℕ) (db : CounterStore) (b : Option ℕ) (v : Text)
    (h : upper u v ≡ v) where
  pub occupancy-post :
      (n delta : ℤ) (session_id : Option ℕ) (reason : Text)
      → occupancy b v
          (post b v
            (get_or_create_counter u id db b v).0
            n
            delta
            session_id
            reason
            (get_or_create_counter u id db b v).1).1
        ≡ n
  occupancy-post n delta session_id reason =
      let got = get_or_create_counter u id db b v in
      rw (same_slot_refl b v) at
        (occupancy-write_occupied b b v v n got.1 got.0 (get_or_create_counter-Got u id db b v h).0)

  pub got_count : (get_or_create_counter u id db b v).0.occupied ≡ occupancy b v db
  got_count = (get_or_create_counter-Got u id db b v h).1

  -- For a type in upper case, an increment is refused exactly when the limit of the class is
  -- reached; else the count grows by one, or by two where the UPDATE refreshes the objects of the
  -- session.
  pub increment_atomic_lem :
      (refreshes : Bool) (cfg : CapacityQuotaConfig) (session_id : ℕ) (cls reason : Text)
      → (calculate_effective_capacity_limit u cfg cls ≤ℤ occupancy b v db
          → increment_atomic u refreshes cfg id db b v session_id cls reason
            ≡ raise (app_error 403 capacity_full))
        × (occupancy b v db +ℤ pos 1 ≤ℤ calculate_effective_capacity_limit u cfg cls
            → (c : ParkingCounter) × (after : CounterStore) × (increment_atomic u refreshes cfg id
                  db b v session_id cls reason
                ≡ ok (c, after))
              × (occupancy b v after ≡ occupancy b v db +ℤ (if refreshes then pos 2 else pos 1)))
  unfolding increment_atomic
  increment_atomic_lem refreshes cfg session_id cls reason =
      let got = get_or_create_counter u id db b v in
      let limit = calculate_effective_capacity_limit u cfg cls in
      let written = (if refreshes then got.0.occupied +ℤ pos 1 else got.0.occupied) +ℤ pos 1 in
      (
        λ full.
            let f : leb_ℤ limit got.0.occupied ≡ true = rw got_count (leb_of limit _ full) in
            rw (h, f),
        λ free.
            let f : leb_ℤ limit got.0.occupied ≡ false = rw got_count (not_leb_of limit _ free) in
            (
              (post b v got.0 written (pos 1) (some session_id) reason got.1).0,
              (post b v got.0 written (pos 1) (some session_id) reason got.1).1,
              rw (h, f),
              occupancy-post written (pos 1) (some session_id) reason
                  ∙ added refreshes got.0.occupied (occupancy b v db) got_count,
            ),
      )

  -- For a type in upper case, a decrement takes one off a positive count, or two where the UPDATE
  -- refreshes the objects of the session and two are left; a count of zero stays.
  pub decrement_atomic_lem :
      (refreshes : Bool) (session_id n : ℕ) (reason : Text)
      → occupancy b v db ≡ pos n
      → occupancy b v (decrement_atomic u refreshes id db b v session_id reason).1
        ≡ pos (n - (if refreshes then 2 else 1))
  unfolding decrement_atomic
  decrement_atomic_lem refreshes session_id n reason e =
      let got = get_or_create_counter u id db b v in
      let held = if refreshes then decremented got.0.occupied else got.0.occupied in
      let written = if ltb_ℤ (pos 0) held then held -ℤ pos 1 else decremented got.0.occupied in
      rw h (
        occupancy-post written (negsuc 0) (some session_id) reason
        ∙ taken refreshes n got.0.occupied (got_count ∙ e))

  recorded-decrement_atomic :
      (refreshes : Bool) (session_id : ℕ) (reason : Text)
      → recorded b v (decrement_atomic u refreshes id db b v session_id reason).1.events
        ≡ negsuc 0 +ℤ recorded b v db.events
  unfolding decrement_atomic write_occupied
  recorded-decrement_atomic refreshes session_id reason =
      let events : (get_or_create_counter u id db b v).1.events ≡ db.events =
        (get_or_create_counter-Got u id db b v h).3 in
      rw (h, same_slot_refl b v, events)

  -- A decrement of an empty counter unbalances a balanced store, for a type in upper case: the
  -- event records a vehicle less, the count stays at zero.
  pub decrement_atomic_empty :
      (refreshes : Bool) (session_id : ℕ) (reason : Text)
      → IsBalanced db
      → occupancy b v db ≡ pos 0
      → ¬ IsBalanced (decrement_atomic u refreshes id db b v session_id reason).1
  decrement_atomic_empty refreshes session_id reason k e all =
      let before : recorded b v db.events ≡ pos 0 = sym (k b v) ∙ e in
      less_than_nothing refreshes (
        sym (decrement_atomic_lem refreshes session_id 0 reason e)
        ∙ all b v
        ∙ recorded-decrement_atomic refreshes session_id reason
        ∙ ap (λ n. negsuc 0 +ℤ n) before)

  -- What an increment that returns does to the count and to the sum of the events.
  increment_atomic_effect :
      (refreshes : Bool) (cfg : CapacityQuotaConfig) (session_id : ℕ) (cls reason : Text)
      (c : ParkingCounter) (after : CounterStore)
      → increment_atomic u refreshes cfg id db b v session_id cls reason ≡ ok (c, after)
      → (occupancy b v after ≡ occupancy b v db +ℤ (if refreshes then pos 2 else pos 1))
        × (recorded b v after.events ≡ pos 1 +ℤ recorded b v db.events)
  unfolding increment_atomic write_occupied
  increment_atomic_effect refreshes cfg session_id cls reason c after e =
      let got = get_or_create_counter u id db b v in
      let written = (if refreshes then got.0.occupied +ℤ pos 1 else got.0.occupied) +ℤ pos 1 in
      let events : got.1.events ≡ db.events = (get_or_create_counter-Got u id db b v h).3 in
      elim (Bool-cases (leb_ℤ (calculate_effective_capacity_limit u cfg cls) got.0.occupied)) [
        | inl f ↦ cc (rw (h, f) at e)
        | inr f ↦
            let done : (post b v got.0 written (pos 1) (some session_id) reason got.1).1 ≡ after =
              cc (rw (h, f) at e) in
            subst
              (λ (d : CounterStore).
                (occupancy b v d ≡ occupancy b v db +ℤ (if refreshes then pos 2 else pos 1))
                × (recorded b v d.events ≡ pos 1 +ℤ recorded b v db.events))
              done
              (
                occupancy-post written (pos 1) (some session_id) reason
                    ∙ added refreshes got.0.occupied (occupancy b v db) got_count,
                rw (same_slot_refl b v, events),
              )
      ]

  -- An increment that returns on a balanced store, for a type in upper case, leaves it balanced
  -- exactly where the UPDATE does not refresh the objects of the session.
  pub increment_atomic_balance :
      (refreshes : Bool) (cfg : CapacityQuotaConfig) (session_id : ℕ) (cls reason : Text)
      (c : ParkingCounter) (after : CounterStore)
      → IsBalanced db
      → increment_atomic u refreshes cfg id db b v session_id cls reason ≡ ok (c, after)
      → IsBalanced after ↔ (refreshes ≡ false)
  increment_atomic_balance refreshes cfg session_id cls reason c after k e = (
    λ all. elim (Bool-cases refreshes) [
      | inr f ↦ f
      | inl f ↦
          let (count, sum) =
            increment_atomic_effect refreshes cfg session_id cls reason c after e in
          absurd (
            one_too_many (occupancy b v db)
              (sym (rw f at count) ∙ all b v ∙ sum ∙ ap (λ n. pos 1 +ℤ n) (sym (k b v))))
    ],
    λ f.
        increment_atomic-IsBalanced u id db b v h cfg session_id cls reason c after
          (subst
            (λ (r : Bool). increment_atomic u r cfg id db b v session_id cls reason ≡ ok (c, after))
            f e)
          k,
  )

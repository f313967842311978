-- ===== src/Counters/Balance.antt =====
-- The counters as a view of the events: the count of a slot is the sum of what its events say.
use vision_park_ai.Prelude.{
  ℕ, ◌≡◌, refl, sym, ◌∙◌, true, false, Option, none, some, inl, inr, List, [], ◌∷◌, arith,
  if◌then◌else◌, Bool-cases,
}
use vision_park_ai.Prelude.Int.{ℤ, pos, negsuc, ◌+ℤ◌, ◌-ℤ◌, ◌≤ℤ◌, ltb_ℤ, leb_ℤ, eqb_ℤ, int_laws}
use vision_park_ai.Prelude.Text.{Text, Unicode, upper}
use vision_park_ai.Errors.{ok}
use vision_park_ai.Capacity.{CapacityQuotaConfig, calculate_effective_capacity_limit}
use vision_park_ai.Counters.{
  ParkingCounter, CounterEvent, CounterStore, get_or_create_counter, write_occupied, add_event,
  post, increment_atomic, decrement_atomic, adjust_counter,
}
use vision_park_ai.Counters.Slots.{
  occupancy, same_slot, same_slot_sound, occupancy-write_occupied, get_or_create_counter-Got, Got,
}

-- The sum of the changes that the events of a slot record.
abbrev pub recorded : Option ℕ → Text → List CounterEvent → ℤ
recorded b v [] = pos 0
recorded b v (e ∷ es) =
    if same_slot e.building_id e.vehicle_type b v
    then e.delta +ℤ recorded b v es
    else recorded b v es

abbrev pub IsBalanced : CounterStore → Type 0
IsBalanced db = (b : Option ℕ) (v : Text) → occupancy b v db ≡ recorded b v db.events

add_of_eq : (m n d : ℤ) (r : ℤ) → m ≡ n +ℤ d → n ≡ r → m ≡ d +ℤ r
add_of_eq m n d r h k = grind int_laws

positive : (n : ℤ) → pos 1 ≤ℤ n → ltb_ℤ (pos 0) n ≡ true
positive n h = ground arith

-- A count and an event that agree keep the store balanced.
IsBalanced-add_event :
    (db found : CounterStore) (e : CounterEvent) (c : ParkingCounter) (n : ℤ)
    → Got db e.building_id e.vehicle_type c found
    → n ≡ c.occupied +ℤ e.delta
    → IsBalanced db
    → IsBalanced (add_event e (write_occupied e.building_id e.vehicle_type n found))
unfolding write_occupied
IsBalanced-add_event db found e c n (there, count, others, events) h k b v =
    let kept : occupancy b v db ≡ recorded b v found.events = rw events (k b v) in
    let wrote = occupancy-write_occupied e.building_id b e.vehicle_type v n found c there in
    wrote ∙ elim (Bool-cases (same_slot e.building_id e.vehicle_type b v)) [
      | inr s ↦ rw s (others b v ∙ kept)
      | inl s ↦
          let (x, y) = same_slot_sound e.building_id e.vehicle_type b v s in
          let here : c.occupied ≡ recorded b v found.events = rw (x, y) at count ∙ kept in
          rw s (add_of_eq n c.occupied e.delta (recorded b v found.events) h here)
    ]

module _ (u : Unicode) (id : ℕ) (db : CounterStore) (b : Option ℕ) (v : Text)
    (h : upper u v ≡ v) where
  -- The end of a change whose count and event agree.
  IsBalanced-post :
      (n delta : ℤ) (session_id : Option ℕ) (reason : Text)
      → n ≡ (get_or_create_counter u id db b v).0.occupied +ℤ delta
      → IsBalanced db
      → IsBalanced
          (post b v
            (get_or_create_counter u id db b v).0
            n
            delta
            session_id
            reason
            (get_or_create_counter u id db b v).1).1
  IsBalanced-post n delta session_id reason e k =
      IsBalanced-add_event db (get_or_create_counter u id db b v).1
        (record {
          building_id = b;
          counter_id = (get_or_create_counter u id db b v).0.id;
          vehicle_type = v;
          delta = delta;
          session_id = session_id;
          reason = reason;
        })
        (get_or_create_counter u id db b v).0 n (get_or_create_counter-Got u id db b v h) e k

  -- An increment that returns keeps the store balanced, for a type in upper case, where the UPDATE
  -- does not refresh the objects of the session.
  pub increment_atomic-IsBalanced :
      (cfg : CapacityQuotaConfig) (session_id : ℕ) (cls reason : Text) (c : ParkingCounter)
      (after : CounterStore)
      → increment_atomic u false cfg id db b v session_id cls reason ≡ ok (c, after)
      → IsBalanced db
      → IsBalanced after
  unfolding increment_atomic
  increment_atomic-IsBalanced cfg session_id cls reason c after e k =
      let got = get_or_create_counter u id db b v in
      elim (Bool-cases (leb_ℤ (calculate_effective_capacity_limit u cfg cls) got.0.occupied)) [
        | inl f ↦ cc (rw (h, f) at e)
        | inr f ↦
            let done : (post b v got.0 (got.0.occupied +ℤ pos 1) (pos 1) (some session_id) reason
                  got.1).1
                ≡ after =
              cc (rw (h, f) at e) in
            rw (sym done)
              (IsBalanced-post (got.0.occupied +ℤ pos 1) (pos 1) (some session_id) reason refl k)
      ]

  -- An adjustment that returns keeps the store balanced, for a type in upper case.
  pub adjust_counter-IsBalanced :
      (delta : ℤ) (reason : Text) (c : ParkingCounter) (after : CounterStore)
      → adjust_counter u id db b v delta reason ≡ ok (c, after)
      → IsBalanced db
      → IsBalanced after
  unfolding adjust_counter
  adjust_counter-IsBalanced delta reason c after e k =
      let got = get_or_create_counter u id db b v in
      elim (Bool-cases (eqb_ℤ delta (pos 0))) [
        | inl f ↦ cc (rw (h, f) at e)
        | inr f ↦ elim (Bool-cases (ltb_ℤ (got.0.occupied +ℤ delta) (pos 0))) [
          | inl g ↦ cc (rw (h, f, g) at e)
          | inr g ↦
              let done : (post b v got.0 (got.0.occupied +ℤ delta) delta none reason got.1).1
                  ≡ after =
                cc (rw (h, f, g) at e) in
              rw (sym done) (IsBalanced-post (got.0.occupied +ℤ delta) delta none reason refl k)
        ]
      ]

  -- A decrement keeps the store balanced, for a type in upper case whose count is positive, where
  -- the UPDATE does not refresh the objects of the session.
  pub decrement_atomic-IsBalanced :
      (session_id : ℕ) (reason : Text)
      → pos 1 ≤ℤ occupancy b v db
      → IsBalanced db
      → IsBalanced (decrement_atomic u false id db b v session_id reason).1
  unfolding decrement_atomic
  decrement_atomic-IsBalanced session_id reason p k =
      let got = get_or_create_counter u id db b v in
      let count : got.0.occupied ≡ occupancy b v db = (get_or_create_counter-Got u id db b v h).1 in
      let f : ltb_ℤ (pos 0) got.0.occupied ≡ true = positive _ (rw (sym count) at p) in
      rw (h, f)
        (IsBalanced-post (got.0.occupied -ℤ pos 1) (negsuc 0) (some session_id) reason
          (grind int_laws) k)

-- ===== src/Errors.antt =====
-- What a call raises: `AppError` of backend/app/core/errors.py with its status and code, and the
-- built-in exceptions; a call that may raise returns a `Result`. Messages are left out.
use vision_park_ai.Prelude.{ℕ, Bool, true, false, Option, none, some, ◌≡◌, refl, ◌⊎◌, inl, inr}

pub data Code : Type 0 where
  building_not_found invalid_customer_class price_unavailable pricing_version_conflict : Code
  rate_limit not_found detection_already_checked_in invalid_plate : Code
  transaction_not_found invoice_exists not_parked price_missing : Code
  invite_unavailable invite_expired invalid_checkout : Code
  invoice_not_found idempotency_conflict invoice_paid payment_pending payment_conflict : Code
  payment_not_found invalid_payment_method refund_amount_mismatch payment_final : Code
  capacity_full invalid_delta negative_occupied : Code
  lane_not_found lane_inactive invalid_trigger_reason forbidden : Code
  override_reason_required session_not_found : Code
  idempotency_key_required invalid_idempotency_key : Code
  invalid_lane_type building_mismatch vehicle_type_mismatch fee_changed : Code
  duplicate_active_sessions invalid_session_status exit_lane_missing : Code

pub data Error : Type 0 where
  value_error : Error
  type_error : Error
  invalid_image : Error
  attribute_error : Error
  app_error : ℕ → Code → Error

pub data Result {ℓ} (A : Type ℓ) : Type ℓ where
  raise : Error → Result A
  ok : A → Result A

-- What follows a call runs only if the call returns.
abbrev pub then_call {ℓ κ} : {A : Type ℓ} {B : Type κ} → (A → Result B) → Result A → Result B
then_call rest (raise e) = raise e
then_call rest (ok v) = rest v

infixl 5 ◌>>=◌ ◌>>◌
abbrev pub ◌>>=◌ {ℓ κ} : {A : Type ℓ} {B : Type κ} → Result A → (A → Result B) → Result B
call >>= rest = then_call rest call

abbrev pub ◌>>◌ {ℓ} : {B : Type ℓ} → Result (Unit {0}) → Result B → Result B
check >> rest = then_call (λ _. rest) check

-- `if b: raise e`
abbrev pub raise_if : Bool → Error → Result (Unit {0})
raise_if true e = raise e
raise_if false e = ok tt

-- `if o is None: raise e`
abbrev pub or_raise {ℓ} : {A : Type ℓ} → Option A → Error → Result A
or_raise none e = raise e
or_raise (some a) e = ok a

pub Result-cases {ℓ} :
    {A : Type ℓ} (r : Result A) → ((a : A) × (r ≡ ok a)) ⊎ ((e : Error) × (r ≡ raise e))
Result-cases (ok a) = inl (a, refl)
Result-cases (raise e) = inr (e, refl)

pub ok_injective {ℓ} : {A : Type ℓ} {a b : A} → ok a ≡ ok b → a ≡ b
ok_injective h = cc

-- A check and what follows it have returned if both together have.
pub guarded-ok {ℓ} :
    {B : Type ℓ} (b : Bool) (e : Error) (rest : Result B) {x : B}
    → (raise_if b e >> rest) ≡ ok x
    → (b ≡ false) × (rest ≡ ok x)
guarded-ok true e rest h = cc
guarded-ok false e rest h = (refl, h)

-- So have two calls and what takes their values.
pub two_calls-ok {ℓ κ η} :
    {A : Type ℓ} {B : Type κ} {C : Type η} (one : Result A) (two : Result B)
    (rest : A → B → Result C) {x : C}
    → (one >>= λ a. two >>= rest a) ≡ ok x
    → (a : A) × (b : B) × (one ≡ ok a) × (two ≡ ok b) × (rest a b ≡ ok x)
two_calls-ok (ok a) (ok b) rest h = (a, b, refl, refl, h)
two_calls-ok (ok a) (raise e) rest h = cc
two_calls-ok (raise e) two rest h = cc

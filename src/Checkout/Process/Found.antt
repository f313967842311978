-- ===== src/Checkout/Process/Found.antt =====
-- The session that a check-out is about, among rows whose key is primary.
use vision_park_ai.Prelude.{
  ℕ, ◌≡◌, refl, sym, ap, ◌∙◌, true, ◌&&◌, Option, none, some, inl, inr, List, [], ◌∷◌, arith,
  Bool-cases, Option-cases,
}
use mathlib.Core.Path.{subst}
use vision_park_ai.Prelude.Text.{Text, text_is, filled, Unicode, upper, strip}
use vision_park_ai.Errors.{ok}
use vision_park_ai.Tables.{find, find_test, select_single}
use vision_park_ai.Ledger.{option_eq}
use vision_park_ai.Plate.{normalize_plate}
use vision_park_ai.Sessions.{
  Session, session_key, is_checkout_eligible, get_checkout_eligible_by_plate,
  get_checkout_eligible_by_ticket,
}
use vision_park_ai.Sessions.Rows.{IsKeyed}
use vision_park_ai.Gates.{User}
use vision_park_ai.Checkout.{
  CheckOutRequest, find_single_session, sessions_of, session_by_text, named_session, single,
  in_reach,
}

-- The session is there under its key, and may leave.
abbrev pub IsFound : List Session → Session → Type 0
IsFound sessions s =
    (find (session_key s.id) sessions ≡ some s) × (is_checkout_eligible s.status ≡ true)

single-ok :
    (l : List Session) (s : Session)
    → single l ≡ ok s
    → (l ≡ s ∷ []) × (is_checkout_eligible s.status ≡ true)
single-ok [] s h = cc
single-ok (t ∷ u ∷ v) s h = cc
single-ok (t ∷ []) s h = elim (Bool-cases (is_checkout_eligible t.status)) [
  | inr a ↦ cc (rw a at h)
  | inl a ↦ let same : t ≡ s = cc (rw a at h) in rw (sym same) (refl, a)
]

module _ (u : Unicode) (sessions : List Session) (user : User) (keyed : IsKeyed sessions) where
  session_by_text-single :
      (code plate : Option Text) (s : Session)
      → session_by_text u sessions code plate user ≡ s ∷ []
      → find (session_key s.id) sessions ≡ some s
  unfolding get_checkout_eligible_by_plate get_checkout_eligible_by_ticket
  session_by_text-single (some code) plate s h =
      (select_single
        (λ (t : Session).
          text_is t.ticket_code (upper u (strip u code))
          && (is_checkout_eligible t.status && option_eq t.building_id user.building_id))
        (λ (t : Session). find (session_key t.id) sessions ≡ some t) sessions s keyed h).0
  session_by_text-single none (some plate) s h =
      (select_single
        (λ (t : Session).
          text_is t.normalized_plate (normalize_plate u true plate)
          && (is_checkout_eligible t.status && option_eq t.building_id user.building_id))
        (λ (t : Session). find (session_key t.id) sessions ≡ some t) sessions s keyed h).0
  session_by_text-single none none s h = cc

  named_session-single :
      (k : ℕ) (s : Session)
      → named_session sessions k user ≡ s ∷ []
      → find (session_key s.id) sessions ≡ some s
  named_session-single k s h = elim (Option-cases (find (session_key k) sessions)) [
    | inl a ↦ cc (rw (named_session, a) at h)
    | inr (t, a) ↦ elim (Bool-cases (in_reach user.building_id t)) [
      | inr b ↦ cc (rw (named_session, a, b) at h)
      | inl b ↦
          let same : t ≡ s = cc (rw (named_session, a, b) at h) in
          let key : t.id ≡ k = ground (arith, find_test (session_key k) sessions a) in
          subst (λ n. find (session_key n) sessions ≡ some s)
            (sym key ∙ ap (λ (x : Session). x.id) same) (a ∙ ap (λ (x : Session). some x) same)
    ]
  ]

  sessions_of-single :
      (request : CheckOutRequest) (s : Session)
      → sessions_of u sessions request user ≡ s ∷ []
      → find (session_key s.id) sessions ≡ some s
  unfolding sessions_of
  sessions_of-single request s h = elim (Option-cases request.session_id) [
    | inr (k, a) ↦ named_session-single k s (rw a at h)
    | inl a ↦
        session_by_text-single (filled request.ticket_code) (filled request.license_plate) s
          (rw a at h)
  ]

  -- The session that is found stands under its own key and may leave.
  pub find_single_session-IsFound :
      (request : CheckOutRequest) (s : Session)
      → find_single_session u sessions request user ≡ ok s
      → IsFound sessions s
  unfolding find_single_session
  find_single_session-IsFound request s h =
      let (l, a) = single-ok (sessions_of u sessions request user) s h in
      (sessions_of-single request s l, a)

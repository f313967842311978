-- ===== src/Operations/Limit.antt =====
-- The limit of error reports: `report_error` of backend/app/modules/operations/service.py. The
-- handler of failed requests in backend/app/core/errors.py writes such rows too, and is not here.
use vision_park_ai.Prelude.{
  ℕ, suc, ◌≤◌, ◌<◌, ◌≡◌, ◌≢◌, refl, true, inl, inr, List, [], ◌∷◌, ◌==◌, leb, arith, length, select,
  Bool-cases, Option-cases,
}
use mathlib.Core.Path.{subst}
use vision_park_ai.Prelude.Text.{filled}
use vision_park_ai.Errors.{ok, ok_injective, guarded-ok, app_error, rate_limit}
use vision_park_ai.Operations.{
  ErrorEvent, ErrorReport, OperationsStore, find_report, is_recent, count_recent, new_event,
  store_event, add_event, report_error,
}

-- Of a user, no more than ten reports of the last minute.
abbrev pub IsLimited : ℕ → OperationsStore → Type 0
IsLimited now db = (user_id : ℕ) → count_recent user_id now db.events ≤ 10

-- Reports that returned, one after the other, each no earlier than the one before.
pub data Reported : ℕ → OperationsStore → Type 0 where
  start : {now : ℕ} → Reported now (record { events = []; notifications = [] })
  report :
      {now at : ℕ} {db after : OperationsStore} (id user_id : ℕ) (values : ErrorReport)
      (e : ErrorEvent)
      → Reported now db
      → now ≤ at
      → report_error id at user_id values db ≡ ok (e, after)
      → Reported at after

-- As time goes by, reports grow old and no report grows young.
count_recent_mono :
    (user_id now later : ℕ) (events : List ErrorEvent)
    → now ≤ later
    → count_recent user_id later events ≤ count_recent user_id now events
unfolding count_recent
count_recent_mono user_id now later [] h = omega arith
count_recent_mono user_id now later (e ∷ events) h =
    let rest : length (select (is_recent user_id later) events)
        ≤ length (select (is_recent user_id now) events) =
      count_recent_mono user_id now later events h in
    elim (Bool-cases (is_recent user_id later e)) [
      | inl a ↦
          let young : is_recent user_id now e ≡ true = ground (arith, h, a) in
          rw (a, young) (omega (arith, rest))
      | inr a ↦ elim (Bool-cases (is_recent user_id now e)) [
        | inl b ↦ rw (a, b) (omega (arith, rest))
        | inr b ↦ rw (a, b) rest
      ]
    ]

-- A report counts one for its user at most, and nothing for others.
count_recent-new :
    (user_id now : ℕ) (e : ErrorEvent) (events : List ErrorEvent)
    → (count_recent user_id now (e ∷ events) ≤ suc (count_recent user_id now events))
      × (e.user_id ≢ user_id
          → count_recent user_id now (e ∷ events) ≡ count_recent user_id now events)
unfolding count_recent
count_recent-new user_id now e events = elim (Bool-cases (is_recent user_id now e)) [
  | inl a ↦ rw a (omega arith, λ other. absurd (ground (arith, other, a)))
  | inr a ↦ rw a (omega arith, λ _. refl)
]

module _ (id now user_id : ℕ) (values : ErrorReport) (db after : OperationsStore) (e : ErrorEvent)
    (limited : IsLimited now db) where
  add_event-IsLimited : add_event id now user_id values db ≡ ok (e, after) → IsLimited now after
  unfolding add_event store_event
  add_event-IsLimited h =
      let new = new_event id now user_id values in
      let (few, last) =
        guarded-ok (leb 10 (count_recent user_id now db.events)) (app_error 429 rate_limit)
          (ok (new, store_event new db)) h in
      subst (λ (q : ErrorEvent × OperationsStore). IsLimited now q.1)
        (ok_injective {a = (new, store_event new db)} {b = (e, after)} last)
        (λ other.
          let (one, none_else) = count_recent-new other now new db.events in
          elim (Bool-cases (user_id == other)) [
            | inl a ↦
                let same : user_id ≡ other = ground (arith, a) in
                let room : count_recent other now db.events < 10 =
                  subst (λ (k : ℕ). count_recent k now db.events < 10) same (ground (arith, few)) in
                omega (arith, one, room)
            | inr a ↦
                let apart : user_id ≢ other = ground (arith, a) in
                rw (none_else apart) (limited other)
          ])

  report_error-IsLimited :
      report_error id now user_id values db ≡ ok (e, after) → IsLimited now after
  unfolding report_error
  report_error-IsLimited h =
      elim (Option-cases (find_report user_id (filled values.correlation_id) values db.events)) [
        | inl a ↦ add_event-IsLimited (rw a at h)
        | inr (found, a) ↦
            subst (λ (q : ErrorEvent × OperationsStore). IsLimited now q.1)
              (ok_injective {a = (found, db)} {b = (e, after)} (rw a at h)) limited
      ]

none_reported : (now user_id : ℕ) → count_recent user_id now [] ≤ 10
unfolding count_recent
none_reported now user_id = omega arith

-- From an empty table that nothing else writes, reports that return, one after the other, of any
-- users and with whatever values, leave no more than ten of each user that are of the last minute,
-- then and at any later time.
pub Reported-IsLimited :
    {now : ℕ} {db : OperationsStore}
    → Reported now db
    → (later : ℕ) → now ≤ later
    → IsLimited later db
Reported-IsLimited start later h = none_reported later
Reported-IsLimited (report {now} {at} {db} {after} id user_id values e before k r) later h =
    let limited : IsLimited at after =
      report_error-IsLimited id at user_id values db after e (Reported-IsLimited before at k) r in
    λ u. omega (arith, limited u, count_recent_mono u at later after.events h)

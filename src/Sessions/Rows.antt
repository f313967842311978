-- ===== src/Sessions/Rows.antt =====
-- Sessions by their primary key, and what a write does to them.
use vision_park_ai.Prelude.{ℕ, ◌≡◌, ◌≢◌, sym, true, some, List, arith, Each}
use mathlib.Core.Path.{subst}
use vision_park_ai.Tables.{
  find, update_first, find-update_first, update_first_twice, find-update_unseen,
}
use vision_park_ai.Sessions.{Session, session_key, write_session}

-- Each row is the one that its key finds: the key is primary.
abbrev pub IsKeyed : List Session → Type 0
IsKeyed sessions = Each (λ (s : Session). find (session_key s.id) sessions ≡ some s) sessions

pub session_key_refl : (s : Session) → session_key s.id s ≡ true
session_key_refl s = ground arith

-- Of two writes of one session the second stays.
pub write_session_twice :
    (s t : Session) (sessions : List Session)
    → s.id ≡ t.id
    → write_session t (write_session s sessions) ≡ write_session t sessions
unfolding write_session
write_session_twice s t sessions h =
    subst
      (λ k.
        update_first (session_key t.id) (λ (_ : Session). t)
          (update_first (session_key k) (λ (_ : Session). s) sessions)
        ≡ update_first (session_key t.id) (λ (_ : Session). t) sessions)
      (sym h) (update_first_twice (session_key t.id) s t (ground arith) sessions)

-- A session that is written is found.
pub find-write_session :
    (t s : Session) (sessions : List Session)
    → find (session_key t.id) sessions ≡ some s
    → find (session_key t.id) (write_session t sessions) ≡ some t
unfolding write_session
find-write_session t s sessions h =
    find-update_first (session_key t.id) (λ (_ : Session). t) sessions s h (session_key_refl t)

-- The other sessions are found as before.
pub find-write_session_other :
    (k : ℕ) (t : Session) (sessions : List Session)
    → k ≢ t.id
    → find (session_key k) (write_session t sessions) ≡ find (session_key k) sessions
unfolding write_session
find-write_session_other k t sessions h =
    find-update_unseen (session_key t.id) (session_key k) t (ground arith)
      (λ (x : Session) (e : session_key t.id x ≡ true). ground arith) sessions

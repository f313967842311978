-- ===== src/Emergency/Exits.antt =====
-- What emergency exits leave of a session that they name.
use vision_park_ai.Prelude.{ℕ, ◌≡◌, false, some}
use vision_park_ai.Prelude.Text.{Text}
use vision_park_ai.Tables.{find}
use vision_park_ai.Sessions.{Session, session_key}
use vision_park_ai.Emergency.{EmergencyStore, is_active_session}

-- No active session has the key.
abbrev pub HasLeft : ℕ → EmergencyStore → Type 0
HasLeft k db =
    (s : Session)
    → find (session_key k) db.gates.sessions ≡ some s
    → is_active_session s.status ≡ false

-- The sessions and the counters are as they were.
abbrev pub SameLot : EmergencyStore → EmergencyStore → Type 0
SameLot db after = (after.gates.sessions ≡ db.gates.sessions) × (after.counters ≡ db.counters)

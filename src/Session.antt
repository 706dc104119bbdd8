-- ===== src/Session.antt =====
-- src/session.rs. Each operation holds the lock of the table from start to end. `now` is what
-- `Instant::now` gives, and `uuid` what `Uuid::new_v4` gives.
pub mod Table
mod Tests
use xprotocol.Prelude.{ℕ, ◌-◌, String, Option, none, some, List, [], ◌∷◌, length, ltb}
use xprotocol.Prelude.Dict.{Dict, get, insert, remove, retain_values}

pub record Session : Type 0 where
  pub id : String
  pub client_id : String
  pub service_name : String
  pub created_at : ℕ
  pub last_active : ℕ
  pub metadata : Dict String

unfoldable pub new_session : ℕ → String → String → String → Session
new_session now id client_id service_name = record {
  id = id;
  client_id = client_id;
  service_name = service_name;
  created_at = now;
  last_active = now;
  metadata = [];
}

unfoldable pub touch : ℕ → Session → Session
touch now s = record s { last_active = now }

unfoldable pub age : ℕ → Session → ℕ
age now s = now - s.created_at

unfoldable pub idle_time : ℕ → Session → ℕ
idle_time now s = now - s.last_active

pub record SessionManager : Type 0 where
  pub sessions : Dict Session
  pub max_idle_time : ℕ

-- `Duration::from_secs(300)`, in milliseconds
unfoldable pub new : SessionManager
new = record { sessions = []; max_idle_time = 300000 }

unfoldable pub with_max_idle_time : ℕ → SessionManager → SessionManager
with_max_idle_time duration m = record m { max_idle_time = duration }

unfoldable pub create_session :
    ℕ → String → String → String → SessionManager → Session × SessionManager
unfolding new_session
create_session now uuid client_id service_name m =
    let session = new_session now uuid client_id service_name in
    (session, record m { sessions = insert uuid session m.sessions })

touched : ℕ → String → Option Session → SessionManager → Option Session × SessionManager
unfolding touch
touched now id none m = (none, m)
touched now id (some s) m =
    (some (touch now s), record m { sessions = insert id (touch now s) m.sessions })

unfoldable pub get_session : ℕ → String → SessionManager → Option Session × SessionManager
unfolding touched
get_session now id m = touched now id (get id m.sessions) m

unfoldable pub remove_session : String → SessionManager → Option Session × SessionManager
remove_session id m = (get id m.sessions, record m { sessions = remove id m.sessions })

unfoldable pub cleanup_idle : ℕ → SessionManager → ℕ × SessionManager
unfolding idle_time
cleanup_idle now m =
    let kept = retain_values (λ s. ltb (idle_time now s) m.max_idle_time) m.sessions in
    (length m.sessions - length kept, record m { sessions = kept })

unfoldable pub session_count : SessionManager → ℕ
session_count m = length m.sessions

-- ===== src/Session/Tests.antt =====
-- src/session.rs: the theorems at concrete sessions.
use xprotocol.Prelude.{[], ◌∷◌}
use xprotocol.Session.{Session, new, with_max_idle_time}
use xprotocol.Session.Table.{create, fetch, cleanup, run, IsWellFormed, run-IsWellFormed}

abbrev alice : Session
alice = record {
  id = "u1";
  client_id = "alice";
  service_name = "calc";
  created_at = 10;
  last_active = 20;
  metadata = [];
}

run-IsWellFormed_example : IsWellFormed (
    run
      (with_max_idle_time 50 new)
      ((1, create "u1" "alice" "calc") ∷ (2, fetch "u1") ∷ (90, cleanup) ∷ []))
run-IsWellFormed_example =
    run-IsWellFormed 50 ((1, create "u1" "alice" "calc") ∷ (2, fetch "u1") ∷ (90, cleanup) ∷ [])

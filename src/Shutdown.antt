-- ===== src/Shutdown.antt =====
-- src/shutdown.rs: `GracefulShutdown`, and the race of `run_with_graceful_shutdown`. The channel is
-- tokio's broadcast channel of capacity 1, with the one receiver that the code keeps; the message is
-- of the unit type, so the channel is whether one waits.
use xprotocol.Prelude.{◌≡◌, refl, Bool, true, false, Option, none, some, if◌then◌else◌}
use xprotocol.Error.{ProtocolError, Result, ok, err}

pub record GracefulShutdown : Type 0 where
  pub pending : Bool

abbrev pub new : GracefulShutdown
new = record { pending = false }

-- an older message is overwritten
abbrev pub trigger : GracefulShutdown → GracefulShutdown
trigger g = record g { pending = true }

-- `recv().await`: `none` is a task that waits
unfoldable pub wait : GracefulShutdown → Option (GracefulShutdown)
wait g = if g.pending then some (record g { pending = false }) else none

-- which branch of the `select!` is ready first; the futures of the others are dropped, and with them
-- what they hold of the receiver's lock
pub data First : Type 0 where
  served : Result (Unit {0}) → First
  asked : First
  interrupted : First

-- what is logged of the server's end
abbrev pub logged : Result (Unit {0}) → Option ProtocolError
logged (ok _) = none
logged (err e) = some e

-- The result with what was logged; `none` where it waits on.
unfoldable pub after_first :
    First → GracefulShutdown → Option (Result (Unit {0}) × Option ProtocolError)
after_first (served r) g = some (ok tt, logged r)
after_first asked g = elim (wait g) [ none ↦ none | some h ↦ some (ok tt, none) ]
after_first interrupted g = elim (wait (trigger g)) [ none ↦ none | some h ↦ some (ok tt, none) ]

unfoldable pub run_with_graceful_shutdown :
    First → Option (Result (Unit {0}) × Option ProtocolError)
unfolding after_first
run_with_graceful_shutdown first = after_first first new

-- The only branch that never comes first is the one that waits for the signal: nothing outside has
-- the sender. Of the others each ends the run with Ok, also where the server failed, whose error is
-- logged and nothing more.
pub run_with_graceful_shutdown_outcome :
    (r : Result (Unit {0}))
    → (run_with_graceful_shutdown asked ≡ none)
      × (run_with_graceful_shutdown interrupted ≡ some (ok tt, none))
      × (run_with_graceful_shutdown (served r) ≡ some (ok tt, logged r))
unfolding run_with_graceful_shutdown wait
run_with_graceful_shutdown_outcome r = (refl, refl, refl)

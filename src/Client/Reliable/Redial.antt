-- ===== src/Client/Reliable/Redial.antt =====
-- src/client.rs: `ReliableUdsClient::reconnect`.
use Prim.Native.Nat.{min}
use xprotocol.Prelude.{
  ℕ, zero, suc, ◌+◌, ◌*◌, Bool, true, false, none, some, List, [], ◌∷◌, decimal, str_append,
  if◌then◌else◌,
}
use xprotocol.Error.{connection_failed, ok, err}
use xprotocol.Client.Stats.{record_reconnect}
use xprotocol.Client.Reliable.{
  ReliableUdsClient, connected, reconnecting, failed, Run, returned, waits, Dial, dialled,
}

-- One attempt, with what the attempts after it come to. It takes the stream mutex and drops it.
unfoldable pub try_once :
    Bool → Dial → ℕ → ℕ → ReliableUdsClient → List ℕ × Run (Unit {0}) → List ℕ × Run (Unit {0})
try_once true d now attempt c rest = ([], waits (record c { state = reconnecting }))
try_once false (dialled s) now attempt c rest = (
  [],
  returned (ok tt) (record c {
    stream = some s;
    state = connected;
    connected_at = some now;
    stats = record_reconnect now true c.stats;
    lock_held = false;
  }),
)
try_once false d now attempt c rest =
    (min (c.config.reconnect_delay * (attempt + 1)) 30000 ∷ rest.0, rest.1)

-- The attempts of `reconnect` from number `attempt` on, `left` of them; `dial` is what each comes
-- to, `at` when. The delays that were slept
-- come first.
unfoldable pub attempts : ℕ → (ℕ → Dial) → (ℕ → ℕ) → ℕ → ReliableUdsClient → List ℕ × Run (Unit {0})
unfolding try_once
attempts zero dial at attempt c = (
  [],
  returned
      (err (
        connection_failed (
          str_append "Failed to reconnect after "
            (str_append (decimal c.config.max_reconnect_attempts) " attempts"))))
      (record c {
        state = failed;
        stats = record_reconnect (at attempt) false c.stats;
        lock_held = false;
      }),
)
attempts (suc left) dial at attempt c =
    try_once c.stream_held (dial attempt) (at attempt) attempt c
      (attempts left dial at (attempt + 1) (record c { state = reconnecting; stream = none }))

unfoldable pub reconnect : (ℕ → Dial) → (ℕ → ℕ) → ReliableUdsClient → List ℕ × Run (Unit {0})
unfolding attempts
reconnect dial at c =
    if c.lock_held
    then ([], waits c)
    else attempts c.config.max_reconnect_attempts dial at 0 (record c { lock_held = true })

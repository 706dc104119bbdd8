-- ===== src/Client/Tests.antt =====
-- src/client.rs: the theorems at concrete clients.
use xprotocol.Prelude.{
  ℕ, zero, suc, ◌≡◌, ◌<◌, refl, String, false, length, All, none, some, List, [], ◌∷◌, arith,
}
use xprotocol.Error.{Result, is_ok, ok, IoResult, io_ok, io_err}
use xprotocol.Wire.{msg_error}
use xprotocol.Client.Stats.{new_stats}
use xprotocol.Client.Reliable.{
  ReliableUdsClient, connected, returned, waits, Dial, dialled, refused, too_slow, replied,
  default_config,
}
use xprotocol.Client.Reliable.Call.{call}
use xprotocol.Client.Reliable.Deadlock.{Stuck, call_waits_for_itself}
use xprotocol.Client.Reliable.Exchanging.{Ask, calls_over, calls_over_ended}
use xprotocol.Client.Uds.Memory.{memory}
use xprotocol.Wire.Memory.{ending}
use xprotocol.Client.Reliable.Reconnect.{Fails, online, reconnect_succeeds}
use xprotocol.Client.Reliable.Redial

-- every payload is the error message "busy", and the response that is the list itself
abbrev busy : List ℕ → IoResult String
busy payload = io_ok "busy"

abbrev plain : List ℕ → IoResult (List ℕ)
plain payload = io_ok payload

abbrev on_socket_4 : ReliableUdsClient
on_socket_4 = record {
  config = default_config;
  state = connected;
  stream = some 4;
  stats = new_stats;
  connected_at = some 1;
  last_request_at = none;
  lock_held = false;
  stream_held = false;
}

call_waits_for_itself_example :
    (c' : ReliableUdsClient) × (call busy plain 9 too_slow (replied msg_error []) on_socket_4
      ≡ waits c')
    × Stuck c'
call_waits_for_itself_example =
    call_waits_for_itself busy plain 9 msg_error 4 too_slow [] "busy" on_socket_4 refl refl refl
      refl (omega arith) (λ e. refl)

-- one request that does not encode, and two that do
abbrev three : List Ask
three =
    record { now = 9; dial = dialled 5; body = io_ok (2 ∷ []) }
    ∷ record { now = 10; dial = too_slow; body = io_err "no JSON" }
    ∷ record { now = 11; dial = refused "busy"; body = io_ok (3 ∷ []) }
    ∷ []

calls_over_ended_example :
    (rs : List (Result (List ℕ))) × (calls_over busy plain memory three
        (record { reader = []; writer = [] })
        on_socket_4
      ≡ some (rs, on_socket_4))
    × (length rs ≡ 3)
    × All (λ r. is_ok r ≡ false) rs
calls_over_ended_example =
    calls_over_ended busy plain memory ending 4 three (record { reader = []; writer = [] })
      on_socket_4 refl (record { stream = refl; lock = refl; guard = refl }) (λ n r e. refl) refl

-- the third attempt succeeds
abbrev third : ℕ → Dial
third zero = too_slow
third (suc zero) = refused "busy"
third (suc (suc i)) = dialled 8

third-Fails : (i : ℕ) → i < 2 → Fails (third i)
third-Fails zero h = tt
third-Fails (suc zero) h = tt
third-Fails (suc (suc i)) h = absurd (omega arith)

reconnect_succeeds_example :
    Redial.reconnect third (λ i. i) on_socket_4
    ≡ (1000 ∷ 2000 ∷ [], returned (ok tt) (online 8 2 on_socket_4))
reconnect_succeeds_example =
    reconnect_succeeds third (λ i. i) 2 8 on_socket_4 refl refl (omega arith) third-Fails refl

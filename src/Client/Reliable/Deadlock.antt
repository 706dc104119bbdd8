-- ===== src/Client/Reliable/Deadlock.antt =====
-- src/client.rs: what a `ReliableUdsClient` does after a reply that is not a response. `call` locks
-- the stream mutex a second time while its own guard holds it.
use xprotocol.Prelude.{
  ℕ, String, true, false, some, List, ◌≡◌, ◌≢◌, arith, ◌==◌, Bool-cases, inl, inr,
}
use xprotocol.Error.{Result, IoResult, io_ok}
use xprotocol.Wire.{msg_error, msg_response}
use xprotocol.Client.Stats.{record_request}
use xprotocol.Client.Reliable.{
  ReliableUdsClient, connected, waits, Dial, Exchange, replied, is_connected, connect, disconnect,
  ping,
}
use xprotocol.Client.Reliable.Call.{call}
use xprotocol.Client.Reliable.Redial.{reconnect}

-- connected, and with both mutexes held
pub record Stuck (c : ReliableUdsClient) : Type 0 where
  pub online : c.state ≡ connected
  pub lock : c.lock_held ≡ true
  pub stream : c.stream_held ≡ true

module _ {Response : Type 0} (error_message : List ℕ → IoResult String)
    (decode_response : List ℕ → IoResult Response) where
  -- On a connected client whose mutexes are free, a reply of any type but a response leaves `call`
  -- waiting for the mutex that it holds itself; of an error reply this needs that its payload can
  -- be decoded.
  pub call_waits_for_itself :
      (now msg_type socket : ℕ) (d : Dial) (payload : List ℕ) (message : String)
      (c : ReliableUdsClient)
      → c.state ≡ connected
      → c.stream ≡ some socket
      → c.lock_held ≡ false
      → c.stream_held ≡ false
      → msg_type ≢ msg_response
      → (msg_type ≡ msg_error → error_message payload ≡ io_ok message)
      → (c' : ReliableUdsClient) × (call error_message decode_response now d
            (replied msg_type payload)
            c
          ≡ waits c')
        × Stuck c'
  unfolding call is_connected
  call_waits_for_itself now msg_type socket d payload message c s t l m h e = (
    record c { stats = record_request now false c.stats; lock_held = true; stream_held = true },
    elim (Bool-cases (msg_type == msg_error)) [
      | inl error ↦ ground (arith, e (ground arith))
      | inr other ↦ ground arith
    ],
    ground arith,
  )

  -- While that call is not cancelled, every other call, ping, disconnect, connect and reconnect
  -- waits too and changes nothing, and the client reports that it is connected.
  pub Stuck-forever :
      (now : ℕ) (d : Dial) (x : Exchange) (r : Result (Unit {0})) (dial : ℕ → Dial) (at : ℕ → ℕ)
      (c : ReliableUdsClient)
      → Stuck c
      → (call error_message decode_response now d x c ≡ waits c)
        × (ping r c ≡ waits c)
        × (disconnect c ≡ waits c)
        × ((reconnect dial at c).1 ≡ waits c)
        × (connect now d c ≡ waits c)
        × (is_connected c ≡ true)
  unfolding call is_connected ping disconnect reconnect connect
  Stuck-forever now d x r dial at c v = ground arith

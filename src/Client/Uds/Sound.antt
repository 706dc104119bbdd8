-- ===== src/Client/Uds/Sound.antt =====
-- src/client.rs: what a `UdsClient` says of itself, over any history of calls.
use xprotocol.Prelude.{
  ℕ, ◌≡◌, refl, ap, ◌∙◌, String, Bool, true, false, Option, none, some, List, [], ◌∷◌, ◌⊎◌, inl,
  inr,
}
use xprotocol.Error.{Result, ok, err}
use xprotocol.Action.{Action}
use xprotocol.Protocol.{ServiceRequest}
use xprotocol.Streaming.{StreamMode}
use xprotocol.Client.Uds.{
  Link, Socket, ClientJson, UdsClient, Dialled, reached, refused, too_slow, new, connect, joined,
  greet, settled, on_stream, after_connect, start, with_stream, do_call, do_get_schema,
  do_call_streaming, call, call_streaming, get_schema, close, in_mode,
}

abbrev pub is_some {ℓ} : {A : Type ℓ} → Option A → Bool
is_some none = false
is_some (some a) = true

-- The flag says whether there is a stream, and a client with a stream has a session.
pub record IsSound {l : Link} (c : UdsClient l) : Type 0 where
  pub flag : c.connected ≡ is_some c.stream
  pub session : c.connected ≡ true → is_some c.session_id ≡ true

-- The methods of a client, each with what dialling comes to.
pub data Method (l : Link) (Value : Type 0) : Type 0 where
  connecting : Dialled l → Method l Value
  calling : Dialled l → ServiceRequest Value → Method l Value
  streaming : ℕ → Dialled l → StreamMode → ServiceRequest Value → Method l Value
  asking_schema : Dialled l → Method l Value
  closing : Method l Value

module _ {l : Link} {A : Type 0} where
  -- an error leaves no stream
  abbrev pub Dropped : Result A × UdsClient l → Type 0
  Dropped (ok a, c) = Unit
  Dropped (err e, c) = (c.stream ≡ none) × (c.connected ≡ false)

module _ (l : Link) (j : ClientJson) where
  open j use {Value}

  unfoldable pub run : UdsClient l → List (Method l Value) → UdsClient l
  run c [] = c
  run c (connecting d ∷ ms) = run (connect l j d c).1 ms
  run c (calling d request ∷ ms) = run (call l j d request c).1 ms
  run c (streaming fuel d mode request ∷ ms) = run (call_streaming l j fuel d mode request c).1 ms
  run c (asking_schema d ∷ ms) = run (get_schema l j d c).1 ms
  run c (closing ∷ ms) = run (close l j c).1 ms

  joined-IsSound :
      (x : Result String × Socket l) (c : UdsClient l) → IsSound c → IsSound (joined l j x c).1
  unfolding joined
  joined-IsSound (ok session, s) c h = record { flag = refl; session = λ e. refl }
  joined-IsSound (err e, s) c h = h

  connect-IsSound : (d : Dialled l) (c : UdsClient l) → IsSound c → IsSound (connect l j d c).1
  unfolding connect
  connect-IsSound (reached s) c h = joined-IsSound (greet l j c.request_timeout s) c h
  connect-IsSound (refused e) c h = h
  connect-IsSound too_slow c h = h

  settled-IsSound :
      {A : Type 0} (x : Result A × Socket l) (s : Socket l) (c : UdsClient l)
      → c.stream ≡ some s
      → IsSound c
      → IsSound (settled l j x c).1
  unfolding settled
  settled-IsSound (ok a, t) s c e h = record { flag = h.flag ∙ ap is_some e; session = h.session }
  settled-IsSound (err x, t) s c e h = record { flag = refl; session = λ k. cc }

  on_stream-IsSound :
      {A : Type 0} (m : Action (Socket l) A) (o : Option (Socket l)) (c : UdsClient l)
      → c.stream ≡ o
      → IsSound c
      → IsSound (on_stream l j m o c).1 × Dropped (on_stream l j m o c)
  unfolding on_stream settled
  on_stream-IsSound m none c e h = (record { flag = refl; session = λ k. cc }, (refl, refl))
  on_stream-IsSound m (some s) c e h = (settled-IsSound (m s) s c e h, settled-Dropped (m s) c)
    where
      settled-Dropped :
          {A : Type 0} (x : Result A × Socket l) (c : UdsClient l) → Dropped (settled l j x c)
      settled-Dropped (ok a, t) c = tt
      settled-Dropped (err e, t) c = (refl, refl)

  -- A connection that fails changes nothing.
  connect-unchanged :
      (d : Dialled l) (c : UdsClient l) → ((connect l j d c).0 ≡ ok tt) ⊎ ((connect l j d c).1 ≡ c)
  unfolding connect joined
  connect-unchanged (reached s) c = joined-unchanged (greet l j c.request_timeout s)
    where
      joined-unchanged :
          (x : Result String × Socket l) → ((joined l j x c).0 ≡ ok tt) ⊎ ((joined l j x c).1 ≡ c)
      joined-unchanged (ok session, s) = inl refl
      joined-unchanged (err e, s) = inr refl
  connect-unchanged (refused e) c = inr refl
  connect-unchanged too_slow c = inr refl

  after_connect-IsSound :
      {A : Type 0} (m : Action (Socket l) A) (x : Result (Unit {0}) × UdsClient l) (c : UdsClient l)
      → c.stream ≡ none
      → IsSound c
      → IsSound x.1
      → ((x.0 ≡ ok tt) ⊎ (x.1 ≡ c))
      → IsSound (after_connect l j m x).1 × Dropped (after_connect l j m x)
  unfolding after_connect
  after_connect-IsSound m (ok u, b) c e h k same = on_stream-IsSound m b.stream b refl k
  after_connect-IsSound m (err f, b) c e h k (inl o) = cc
  after_connect-IsSound m (err f, b) c e h k (inr o) = (
    k,
    (
      ap (λ (d : UdsClient l). d.stream) o ∙ e,
      ap (λ (d : UdsClient l). d.connected) o ∙ h.flag ∙ ap is_some e,
    ),
  )

  start-IsSound :
      {A : Type 0} (o : Option (Socket l)) (d : Dialled l) (m : Action (Socket l) A)
      (c : UdsClient l)
      → c.stream ≡ o
      → IsSound c
      → IsSound (start l j o d m c).1 × Dropped (start l j o d m c)
  unfolding start
  start-IsSound none d m c e h =
      after_connect-IsSound m (connect l j d c) c e h (connect-IsSound d c h)
        (connect-unchanged d c)
  start-IsSound (some s) d m c e h = on_stream-IsSound m (some s) c e h

  -- A request of a sound client leaves a sound client, and one that fails leaves no stream.
  with_stream-IsSound :
      {A : Type 0} (d : Dialled l) (m : Action (Socket l) A) (c : UdsClient l)
      → IsSound c
      → IsSound (with_stream l j d m c).1 × Dropped (with_stream l j d m c)
  unfolding with_stream
  with_stream-IsSound d m c h = start-IsSound c.stream d m c refl h

  pub call-IsSound :
      (d : Dialled l) (request : ServiceRequest Value) (c : UdsClient l)
      → IsSound c
      → IsSound (call l j d request c).1
  unfolding call
  call-IsSound d request c h = (with_stream-IsSound d (do_call l j c.request_timeout request) c h).0

  steps-IsSound : (c : UdsClient l) (ms : List (Method l Value)) → IsSound c → IsSound (run c ms)
  unfolding run call call_streaming get_schema close
  steps-IsSound c [] h = h
  steps-IsSound c (connecting d ∷ ms) h =
      steps-IsSound (connect l j d c).1 ms (connect-IsSound d c h)
  steps-IsSound c (calling d request ∷ ms) h =
      steps-IsSound (call l j d request c).1 ms
        (with_stream-IsSound d (do_call l j c.request_timeout request) c h).0
  steps-IsSound c (streaming fuel d mode request ∷ ms) h =
      steps-IsSound (call_streaming l j fuel d mode request c).1 ms
        (with_stream-IsSound d
          (do_call_streaming l j fuel c.request_timeout (in_mode l j mode request)) c h).0
  steps-IsSound c (asking_schema d ∷ ms) h =
      steps-IsSound (get_schema l j d c).1 ms
        (with_stream-IsSound d (do_get_schema l j c.request_timeout) c h).0
  steps-IsSound c (closing ∷ ms) h =
      steps-IsSound (close l j c).1 ms (record { flag = refl; session = λ k. cc })

  pub new-IsSound : IsSound {l = l} new
  unfolding new
  new-IsSound = record { flag = refl; session = λ k. cc }

  -- After any methods of a new client, whatever they come to: the client says that it is connected
  -- exactly where it has a stream, and then it has a session; and a further `call` that fails
  -- leaves no stream, so that the one after it dials again.
  pub run-IsSound :
      (ms : List (Method l Value)) (d : Dialled l) (request : ServiceRequest Value)
      → IsSound (run new ms) × Dropped (call l j d request (run new ms))
  unfolding call new
  run-IsSound ms d request =
      let sound = steps-IsSound new ms new-IsSound in
      (
        sound,
        (with_stream-IsSound d (do_call l j (run new ms).request_timeout request) (run new ms)
            sound).1,
      )

-- ===== src/Client/Uds/Streaming.antt =====
-- src/client.rs: the loop of `do_call_streaming_internal`.
use xprotocol.Prelude.{
  ℕ, zero, suc, ◌<◌, ◌≡◌, refl, ap, Bool, true, false, Option, none, some, List, ◌∷◌, ◌++◌, length,
  length-append, arith, if◌then◌else◌,
}
use xprotocol.Error.{timeout, Result, ok, err}
use xprotocol.Action.{Action, continue}
use xprotocol.Streaming.{StreamMessage}
use xprotocol.Wire.{read_message}
use xprotocol.Wire.Accepted.{read_message-Framed}
use xprotocol.Client.Uds.{
  Link, Socket, ClientJson, Turn, goes_on, ends, turn, take_turn, collect, await_message,
  get_message, set_reader,
}

module _ (l : Link) (j : ClientJson) where
  open j use {Value}

  abbrev pub Collected : Type 0
  Collected = Result (Option (List (StreamMessage Value))) × Socket l

  -- the loop has come to an end
  abbrev pub Finished : Collected → Type 0
  Finished (ok none, s) = ⊥
  Finished (ok (some ms), s) = Unit
  Finished (err e, s) = Unit

  -- what a read leaves on the stream
  abbrev Shrinks : ℕ → Result (ℕ × List ℕ) × Socket l → Type 0
  Shrinks n (ok m, s) = length (l.input.pending s.reader) < n
  Shrinks n (err e, s) = Unit

  read-Shrinks :
      (x : Result (ℕ × List ℕ) × l.input.R) (s : Socket l)
      → read_message l.input s.reader ≡ x
      → Shrinks (length (l.input.pending s.reader)) (set_reader x s)
  unfolding set_reader
  read-Shrinks (err e, r) s h = tt
  read-Shrinks (ok (msg_type, payload), r) s h =
      let f = read_message-Framed l.input msg_type payload s.reader r h in
      omega (
        arith,
        ap length f.taken,
        f.four,
        length-append f.header (msg_type ∷ f.version ∷ (payload ++ l.input.pending r)),
        length-append payload (l.input.pending r),
      )

  await-Shrinks :
      (limit : ℕ) (s : Socket l)
      → Shrinks (length (l.input.pending s.reader)) (await_message limit s)
  unfolding await_message get_message
  await-Shrinks limit s = in_either (l.in_time limit s.reader)
    where
      in_either :
          (b : Bool)
          → Shrinks
              (length (l.input.pending s.reader))
              (if b then set_reader (read_message l.input s.reader) s else (err timeout, s))
      in_either true = read-Shrinks (read_message l.input s.reader) s refl
      in_either false = tt

  take_turn-Finished :
      (more : List (StreamMessage Value) → Action (Socket l) (Option (List (StreamMessage Value))))
      (u : Turn l j) (s : Socket l)
      → ((got : List (StreamMessage Value)) → Finished (more got s))
      → Finished (take_turn l j more u s)
  unfolding take_turn
  take_turn-Finished more (goes_on got) s h = h got
  take_turn-Finished more (ends (ok got)) s h = tt
  take_turn-Finished more (ends (err e)) s h = tt

  continue-Finished :
      (n : ℕ)
      (more : List (StreamMessage Value) → Action (Socket l) (Option (List (StreamMessage Value))))
      (got : List (StreamMessage Value)) (x : Result (ℕ × List ℕ) × Socket l)
      → Shrinks n x
      → ((got' : List (StreamMessage Value)) (s : Socket l)
          → length (l.input.pending s.reader) < n
          → Finished (more got' s))
      → Finished (continue x (λ m. take_turn l j more (turn l j got m)))
  continue-Finished n more got (err e, s) k h = tt
  continue-Finished n more got (ok m, s) k h =
      take_turn-Finished more (turn l j got m) s (λ got'. h got' s k)

  -- The loop that collects a stream ends, whatever the server sends and whenever it stops: given
  -- one turn more than there are bytes on the stream, it returns messages or an error.
  pub collect-Finished :
      (fuel limit : ℕ) (got : List (StreamMessage Value)) (s : Socket l)
      → length (l.input.pending s.reader) < fuel
      → Finished (collect l j fuel limit got s)
  unfolding collect
  collect-Finished zero limit got s h = absurd (omega (arith, h))
  collect-Finished (suc n) limit got s h =
      continue-Finished (length (l.input.pending s.reader)) (collect l j n limit) got
        (await_message limit s) (await-Shrinks limit s)
        (λ got' s' k. collect-Finished n limit got' s' (omega (arith, h, k)))

-- ===== src/Tcp/Accepting.antt =====
-- src/tcp.rs: the accept loops of `TcpServer`. Each connection is a task of its own, which
-- `handle_connection` of Tcp.antt runs.
use mathlib.Core.List.{append-nil, append_assoc}
use xprotocol.Prelude.{◌≡◌, refl, ap, ◌∙◌, String, Option, none, some, List, [], ◌∷◌, ◌++◌}
use xprotocol.Error.{Result, ok, err, IoResult, io_ok, from_io}
use xprotocol.Client.Uds.{Link, Socket}

pub record TcpServer : Type 0 where
  pub addr : String

abbrev pub new_server : String → TcpServer
new_server addr = record { addr = addr }

-- what the loops wait for
pub data Event (l : Link) : Type 0 where
  accepted : Socket l → Event l
  accept_error : String → Event l
  shutdown : Event l

module _ (l : Link) where
  -- what a loop has come to: the sockets whose tasks it spawned, and its result if it has ended
  pub record Loop : Type 0 where
    pub spawned : List (Socket l)
    pub result : Option (Result (Unit {0}))

  unfoldable pub accept_loop : List (Event l) → List (Socket l) → Loop
  accept_loop [] spawned = record { spawned = spawned; result = none }
  accept_loop (accepted s ∷ es) spawned = accept_loop es (spawned ++ s ∷ [])
  accept_loop (accept_error e ∷ es) spawned = accept_loop es spawned
  accept_loop (shutdown ∷ es) spawned = record { spawned = spawned; result = some (ok tt) }

  -- `run` has no branch for the signal
  unfoldable pub run_loop : List (Event l) → List (Socket l) → Loop
  run_loop [] spawned = record { spawned = spawned; result = none }
  run_loop (accepted s ∷ es) spawned = run_loop es (spawned ++ s ∷ [])
  run_loop (accept_error e ∷ es) spawned = run_loop es spawned
  run_loop (shutdown ∷ es) spawned = run_loop es spawned

  -- `TcpListener::bind(..)?`, and then the loop
  unfoldable pub bound : Result (Unit {0}) → Loop → Loop
  bound (ok _) loop = loop
  bound (err e) loop = record { spawned = []; result = some (err e) }

  unfoldable pub run : IoResult (Unit {0}) → List (Event l) → Loop
  unfolding bound
  run listener es = bound (from_io listener) (run_loop es [])

  unfoldable pub run_with_shutdown : IoResult (Unit {0}) → List (Event l) → Loop
  unfolding bound
  run_with_shutdown listener es = bound (from_io listener) (accept_loop es [])

  -- the sockets accepted before the first signal
  abbrev pub before_shutdown : List (Event l) → List (Socket l)
  before_shutdown [] = []
  before_shutdown (accepted s ∷ es) = s ∷ before_shutdown es
  before_shutdown (accept_error e ∷ es) = before_shutdown es
  before_shutdown (shutdown ∷ es) = []

  accept_loop_before :
      (before after : List (Event l)) (spawned : List (Socket l))
      → accept_loop (before ++ shutdown ∷ after) spawned ≡ record {
        spawned = spawned ++ before_shutdown (before ++ shutdown ∷ after);
        result = some (ok tt);
      }
  unfolding accept_loop
  accept_loop_before [] after spawned = rw (append-nil spawned) refl
  accept_loop_before (accepted s ∷ es) after spawned =
      accept_loop_before es after (spawned ++ s ∷ [])
      ∙ ap (λ x. record { spawned = x; result = some (ok tt) })
          (append_assoc spawned (s ∷ []) (before_shutdown (es ++ shutdown ∷ after)))
  accept_loop_before (accept_error e ∷ es) after spawned = accept_loop_before es after spawned
  accept_loop_before (shutdown ∷ es) after spawned = rw (append-nil spawned) refl

  -- A server that is told to shut down has returned Ok, whatever came before and whatever comes
  -- after, and has spawned a task for exactly the connections that it accepted before the first
  -- signal, in that order: an error of accepting ends nothing.
  pub run_with_shutdown_ends :
      (before after : List (Event l))
      → run_with_shutdown (io_ok tt) (before ++ shutdown ∷ after)
        ≡ record { spawned = before_shutdown (before ++ shutdown ∷ after); result = some (ok tt) }
  unfolding run_with_shutdown
  run_with_shutdown_ends before after = accept_loop_before before after []

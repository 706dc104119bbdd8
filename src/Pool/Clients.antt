-- ===== src/Pool/Clients.antt =====
-- src/pool.rs: `UdsClientPool` and `TopicBasedPool`. A client is the state of a `SharedUdsClient`,
-- whose mutex lets one call run at a time.
pub mod Returning
pub mod Batches
pub mod Topics
pub mod Keeping
mod Tests
use xprotocol.Prelude.{
  ℕ, zero, suc, ◌+◌, String, Bool, true, false, not, ◌&&◌, Option, none, some, List, [], ◌∷◌,
  length, ltb, fetch_add, fetch_sub, str_eq, if◌then◌else◌,
}
use xprotocol.Prelude.Dict.{Dict, get, insert}
use xprotocol.Error.{ProtocolError, connection_failed, connection_closed, Result, ok, err}
use xprotocol.Protocol.{ServiceRequest, ServiceResponse}
use xprotocol.Client.Uds.{Link, ClientJson, UdsClient, Dialled}
use xprotocol.Client.Uds

-- what the pools use of a client
pub record SharedClient : Type 1 where
  pub C : Type 0
  pub Request : Type 0
  pub Response : Type 0
  pub fresh : C
  pub call : Request → C → Result Response × C
  pub close : C → C

-- `SharedUdsClient`: with a request comes what dialling would give, were it to dial
abbrev pub shared_uds : (l : Link) → ClientJson → SharedClient
shared_uds l j = record {
  C = UdsClient l;
  Request = Dialled l × ServiceRequest j.Value;
  Response = ServiceResponse j.Value;
  fresh = Uds.new;
  call = λ r c. Uds.call l j r.0 r.1 c;
  close = λ c. (Uds.close l j c).1;
}

pub record UdsClientPool (s : SharedClient) : Type 0 where
  pub permits : ℕ
  pub pool : List s.C
  pub max_pool_size : ℕ
  pub created_clients : ℕ

module _ (s : SharedClient) where
  open s use {C, Request, Response}

  abbrev pub with_max_pool_size : ℕ → ℕ → UdsClientPool s
  with_max_pool_size max_concurrent max_pool_size = record {
    permits = max_concurrent;
    pool = [];
    max_pool_size = max_pool_size;
    created_clients = 0;
  }

  abbrev pub new : ℕ → UdsClientPool s
  new max_concurrent = with_max_pool_size max_concurrent max_concurrent

  -- `semaphore.acquire()`: `none` is a call that waits on
  abbrev pub acquire : UdsClientPool s → Option (UdsClientPool s)
  acquire p = elim p.permits [ zero ↦ none | suc n ↦ some (record p { permits = n }) ]

  -- `Vec::pop` takes the newest, which is the head here
  abbrev pub pop_from : List C → UdsClientPool s → Option C × UdsClientPool s
  pop_from [] p = (none, p)
  pop_from (c ∷ cs) p = (some c, record p { pool = cs })

  abbrev pub pop_client : UdsClientPool s → Option C × UdsClientPool s
  pop_client p = pop_from p.pool p

  abbrev pub count_created : UdsClientPool s → UdsClientPool s
  count_created p = record p { created_clients = fetch_add p.created_clients 1 }

  abbrev pub undo_created : UdsClientPool s → UdsClientPool s
  undo_created p = record p { created_clients = fetch_sub p.created_clients 1 }

  abbrev pub popped_or :
      (UdsClientPool s → C × UdsClientPool s) → Option C × UdsClientPool s → C × UdsClientPool s
  popped_or make (some c, p) = (c, p)
  popped_or make (none, p) = make p

  -- The `while` loop: before each try but the first the call sleeps, and the other calls change the
  -- pool, which `meanwhile` stands for.
  unfoldable pub look_again :
      (ℕ → UdsClientPool s → UdsClientPool s) → ℕ → UdsClientPool s → C × UdsClientPool s
  look_again meanwhile zero p = (s.fresh, p)
  look_again meanwhile (suc retries) p =
      popped_or (λ q. look_again meanwhile retries (meanwhile retries q)) (pop_client p)

  unfoldable pub make_client :
      (ℕ → UdsClientPool s → UdsClientPool s) → UdsClientPool s → C × UdsClientPool s
  unfolding look_again
  make_client meanwhile p =
      if ltb p.created_clients p.max_pool_size
      then (s.fresh, count_created p)
      else look_again meanwhile 3 (undo_created (count_created p))

  unfoldable pub get_or_create_client :
      (ℕ → UdsClientPool s → UdsClientPool s) → UdsClientPool s → C × UdsClientPool s
  unfolding make_client
  get_or_create_client meanwhile p = popped_or (make_client meanwhile) (pop_client p)

  abbrev pub should_pool : Result Response → Bool
  should_pool (ok r) = true
  should_pool (err connection_closed) = true
  should_pool (err (connection_failed e)) = true
  should_pool (err e) = false

  unfoldable pub return_client : C → Result Response → UdsClientPool s → UdsClientPool s
  return_client c r p =
      if should_pool r
      then if ltb (length p.pool) p.max_pool_size then record p { pool = c ∷ p.pool } else p
      else p

  abbrev pub release : UdsClientPool s → UdsClientPool s
  release p = record p { permits = suc p.permits }

  abbrev pub settle : Result Response × C → UdsClientPool s → Result Response × UdsClientPool s
  settle (r, c) p = (r, release (return_client c r p))

  abbrev pub use_client : Request → C × UdsClientPool s → Result Response × UdsClientPool s
  use_client request (c, p) = settle (s.call request c) p

  abbrev pub with_permit :
      (UdsClientPool s → C × UdsClientPool s)
      → Request
      → Option (UdsClientPool s)
      → Option (Result Response × UdsClientPool s)
  with_permit obtain request none = none
  with_permit obtain request (some p) = some (use_client request (obtain p))

  -- `none`: the call waits for a permit
  unfoldable pub call :
      (ℕ → UdsClientPool s → UdsClientPool s)
      → Request
      → UdsClientPool s
      → Option (Result Response × UdsClientPool s)
  unfolding get_or_create_client return_client
  call meanwhile request p = with_permit (get_or_create_client meanwhile) request (acquire p)

  -- how `call_batch` comes to a client
  unfoldable pub batch_client : UdsClientPool s → C × UdsClientPool s
  batch_client p =
      popped_or
        (λ q.
          if ltb q.created_clients q.max_pool_size
          then (s.fresh, count_created q)
          else (s.fresh, undo_created (count_created q)))
        (pop_client p)

  -- one request of `call_batch`, where no other one runs meanwhile
  unfoldable pub batch_call : Request → UdsClientPool s → Option (Result Response × UdsClientPool s)
  unfolding batch_client return_client
  batch_call request p = with_permit batch_client request (acquire p)

  unfoldable pub close : UdsClientPool s → UdsClientPool s
  close p = record p { pool = []; created_clients = 0 }

  abbrev pub pooled_count : UdsClientPool s → ℕ
  pooled_count p = p.created_clients

pub record TopicBasedPool (s : SharedClient) : Type 0 where
  pub default_pool : UdsClientPool s
  pub topic_clients : Dict s.C

module _ (s : SharedClient) where
  open s use {C, Request, Response}

  abbrev pub new_topics : ℕ → TopicBasedPool s
  new_topics max_concurrent = record { default_pool = new s max_concurrent; topic_clients = [] }

  abbrev pub or_fresh : Option C → C
  or_fresh none = s.fresh
  or_fresh (some c) = c

  abbrev pub store_client :
      String → Result Response × C → TopicBasedPool s → Result Response × TopicBasedPool s
  store_client topic (r, c) p = (r, record p { topic_clients = insert topic c p.topic_clients })

  -- `entry(topic).or_insert_with(..)`, then the call under that client's mutex
  unfoldable pub call_serial :
      Request → String → TopicBasedPool s → Result Response × TopicBasedPool s
  call_serial request topic p =
      store_client topic (s.call request (or_fresh (get topic p.topic_clients))) p

  abbrev pub put_default :
      Option (Result Response × UdsClientPool s)
      → TopicBasedPool s
      → Option (Result Response × TopicBasedPool s)
  put_default none p = none
  put_default (some (r, d)) p = some (r, record p { default_pool = d })

  unfoldable pub call_with_topic :
      (ℕ → UdsClientPool s → UdsClientPool s)
      → Request
      → Option String
      → TopicBasedPool s
      → Option (Result Response × TopicBasedPool s)
  unfolding call_serial
  call_with_topic meanwhile request none p = put_default (call s meanwhile request p.default_pool) p
  call_with_topic meanwhile request (some t) p =
      if not (str_eq t "")
      then some (call_serial request t p)
      else put_default (call s meanwhile request p.default_pool) p

  -- `TopicBasedPool::call`
  unfoldable pub call_default :
      (ℕ → UdsClientPool s → UdsClientPool s)
      → Request
      → TopicBasedPool s
      → Option (Result Response × TopicBasedPool s)
  unfolding call_with_topic
  call_default meanwhile request p = call_with_topic meanwhile request none p

  abbrev pub close_all : Dict C → Dict C
  close_all [] = []
  close_all ((t, c) ∷ m) = (t, s.close c) ∷ close_all m

  unfoldable pub close_topics : TopicBasedPool s → TopicBasedPool s
  unfolding close
  close_topics p = record {
    default_pool = close s p.default_pool;
    topic_clients = close_all p.topic_clients;
  }

-- ===== src/Pool/Clients/Topics.antt =====
-- src/pool.rs: `TopicBasedPool`, topic by topic.
use xprotocol.Prelude.{
  ℕ, ◌≡◌, refl, ap, ◌∙◌, String, Bool, false, Option, none, some, List, [], ◌∷◌, str_eq, eq_iff,
  Bool-cases, inl, inr, arith, if◌then◌else◌,
}
use xprotocol.Prelude.Dict.{get, get-insert}
use xprotocol.Error.{Result}
use xprotocol.Pool.Clients.{
  SharedClient, UdsClientPool, TopicBasedPool, or_fresh, call_serial, put_default, call_with_topic,
  call,
}

module _ (s : SharedClient) where
  open s use {C, Request, Response}

  abbrev pub client_of : String → TopicBasedPool s → C
  client_of topic p = or_fresh s (get topic p.topic_clients)

  -- a call that waits for a permit has changed nothing yet
  abbrev pub after :
      TopicBasedPool s → Option (Result Response × TopicBasedPool s) → TopicBasedPool s
  after p none = p
  after p (some (r, q)) = q

  abbrev pub run :
      (ℕ → UdsClientPool s → UdsClientPool s)
      → TopicBasedPool s
      → List (Option String × Request)
      → TopicBasedPool s
  run meanwhile p [] = p
  run meanwhile p ((topic, request) ∷ cs) =
      run meanwhile (after p (call_with_topic s meanwhile request topic p)) cs

  abbrev pub is_for : String → Option String → Bool
  is_for topic none = false
  is_for topic (some t) = str_eq t topic

  -- one client that is given the calls of one topic, in order, and no other
  abbrev pub serve : String → C → List (Option String × Request) → C
  serve topic c [] = c
  serve topic c ((o, request) ∷ cs) =
      serve topic (if is_for topic o then (s.call request c).1 else c) cs

  call_serial-client_of :
      (topic t : String) (request : Request) (p : TopicBasedPool s)
      → client_of topic (call_serial s request t p).1
        ≡ (if str_eq t topic then (s.call request (client_of topic p)).1 else client_of topic p)
  unfolding call_serial
  call_serial-client_of topic t request p = ground (
    arith,
    eq_iff t topic,
    get-insert t topic (s.call request (or_fresh s (get t p.topic_clients))).1 p.topic_clients,
  )

  put_default-client_of :
      (topic : String) (o : Option (Result Response × UdsClientPool s)) (p : TopicBasedPool s)
      → client_of topic (after p (put_default s o p)) ≡ client_of topic p
  put_default-client_of topic none p = refl
  put_default-client_of topic (some (r, d)) p = refl

  call-client_of :
      (meanwhile : ℕ → UdsClientPool s → UdsClientPool s) (topic : String) (o : Option String)
      (request : Request) (p : TopicBasedPool s)
      → str_eq topic "" ≡ false
      → client_of topic (after p (call_with_topic s meanwhile request o p))
        ≡ (if is_for topic o then (s.call request (client_of topic p)).1 else client_of topic p)
  unfolding call_with_topic
  call-client_of meanwhile topic none request p h =
      put_default-client_of topic (call s meanwhile request p.default_pool) p
  call-client_of meanwhile topic (some t) request p h = elim (Bool-cases (str_eq t "")) [
    | inl e ↦
        let other : str_eq t topic ≡ false = ground (arith, e, h, eq_iff t "", eq_iff t topic) in
        rw (e, other) (put_default-client_of topic (call s meanwhile request p.default_pool) p)
    | inr e ↦ rw e (call_serial-client_of topic t request p)
  ]

  -- Each topic has a client of its own, and what that client has come through is exactly the calls
  -- of the topic, in order: after any history of calls, with topics or without, from any pool, the
  -- client of a topic with a name is where serving just that topic's calls leads. (`meanwhile` is
  -- what other calls do while one sleeps in the default pool.)
  pub run-serve :
      (meanwhile : ℕ → UdsClientPool s → UdsClientPool s) (topic : String)
      (cs : List (Option String × Request)) (p : TopicBasedPool s)
      → str_eq topic "" ≡ false
      → client_of topic (run meanwhile p cs) ≡ serve topic (client_of topic p) cs
  run-serve meanwhile topic [] p h = refl
  run-serve meanwhile topic ((o, request) ∷ cs) p h =
      run-serve meanwhile topic cs (after p (call_with_topic s meanwhile request o p)) h
      ∙ ap (λ c. serve topic c cs) (call-client_of meanwhile topic o request p h)

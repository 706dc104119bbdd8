-- ===== src/Discovery/Tests.antt =====
-- src/discovery.rs: the theorems at a concrete registry, over a balancer that always gives its first
-- address.
use xprotocol.Prelude.{
  ◌≡◌, refl, String, Bool, true, not, Option, none, some, List, [], ◌∷◌, any, str_eq, eq_iff, arith,
  if◌then◌else◌,
}
use xprotocol.Prelude.Dict.{get, insert}
use xprotocol.Discovery.{
  ServiceEndpoint, random, all_parse, Pingora, addresses, new_endpoint, new, with_strategy,
  discover, register, unregister, rebuild_load_balancers, select_with_key,
}
use xprotocol.Discovery.Registry.{
  Command, registering, unregistering, selecting, run, registered, discover-run,
}
use xprotocol.Discovery.Selecting.{select_with_key-registered, unregister_keeps_serving}

abbrev parses_all_but_bad : String → Bool
parses_all_but_bad a = not (str_eq a "bad")

abbrev build : List String → Option (List String)
build addrs = if all_parse parses_all_but_bad addrs then some addrs else none

abbrev first : List String → Option String × List String
first [] = (none, [])
first (a ∷ addrs) = (some a, a ∷ addrs)

abbrev IsListed : List String → String → Type 0
IsListed addrs a = any (str_eq a) addrs ≡ true

first-IsListed : (addrs : List String) (a : String) → (first addrs).0 ≡ some a → IsListed addrs a
first-IsListed [] a e = cc
first-IsListed (b ∷ addrs) a e = ground (arith, eq_iff a b)

first_serves : (addrs : List String) → (first addrs).1 ≡ addrs
first_serves [] = refl
first_serves (a ∷ addrs) = refl

abbrev toy : Pingora
toy = record {
  LoadBalancer = List String;
  Backend = String;
  try_from_iter = λ s addrs. build addrs;
  select = λ b key. first b;
  parses = parses_all_but_bad;
  serves = λ b. b;
  Backs = IsListed;
  built = λ s addrs e. (addrs, rw e, refl);
  not_built = λ s addrs e. rw e;
  selected = λ b key backend e. first-IsListed b backend e;
  select_serves = λ b key. first_serves b;
}

abbrev at_a : ServiceEndpoint
at_a = new_endpoint "calc" "a"

abbrev at_b : ServiceEndpoint
at_b = new_endpoint "calc" "b"

abbrev at_bad : ServiceEndpoint
at_bad = new_endpoint "calc" "bad"

abbrev history : List Command
history = registering at_a ∷ registering at_b ∷ selecting "calc" [] ∷ unregistering "calc" "a" ∷ []

discover-run_example :
    discover toy "calc" (run toy (new toy) history) ≡ registered toy "calc" [] history
discover-run_example = discover-run toy "calc" history

b_parses :
    all_parse parses_all_but_bad
      (addresses (discover toy "calc" (run toy (with_strategy toy random (new toy)) history)))
    ≡ true
unfolding new register unregister rebuild_load_balancers discover select_with_key get insert
b_parses = refl

b_selected :
    (select_with_key toy "calc" [] (run toy (with_strategy toy random (new toy)) history)).0
    ≡ some "b"
unfolding new register unregister rebuild_load_balancers discover select_with_key get insert
b_selected = refl

select_with_key-registered_example :
    IsListed
      (addresses (discover toy "calc" (run toy (with_strategy toy random (new toy)) history)))
      "b"
select_with_key-registered_example =
    select_with_key-registered toy random history "calc" [] "b" b_parses b_selected

-- an address that does not parse comes before the one that is unregistered
abbrev stuck_history : List Command
stuck_history = registering at_a ∷ registering at_bad ∷ []

stuck_endpoints : get "calc" (run toy (new toy) stuck_history).endpoints ≡ some (at_a ∷ at_bad ∷ [])
unfolding new register rebuild_load_balancers get insert
stuck_endpoints = refl

unregister_keeps_serving_example :
    ((select_with_key toy "calc" [] (unregister toy "calc" "a" (run toy (new toy) stuck_history))).0
      ≡ (select_with_key toy "calc" [] (run toy (new toy) stuck_history)).0)
    × (discover toy "calc" (unregister toy "calc" "a" (run toy (new toy) stuck_history))
        ≡ at_bad ∷ [])
unregister_keeps_serving_example =
    unregister_keeps_serving toy "calc" "a" [] (at_a ∷ at_bad ∷ [])
      (run toy (new toy) stuck_history) stuck_endpoints refl

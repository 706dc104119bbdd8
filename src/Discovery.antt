-- ===== src/Discovery.antt =====
-- src/discovery.rs: the registry of endpoints, its load balancers and the health checker. The
-- balancers are pingora's, which is a parameter.
pub mod Registry
pub mod Selecting
mod Tests
use xprotocol.Prelude.{
  ℕ, suc, ◌≡◌, String, Bool, true, false, not, ◌&&◌, Option, none, some, List, [], ◌∷◌, ◌++◌, map,
  retain, str_eq, if◌then◌else◌,
}
use xprotocol.Prelude.Dict.{Dict, get, insert, keys}

pub record ServiceEndpoint : Type 0 where
  pub name : String
  pub address : String
  pub weight : ℕ
  pub metadata : Dict String

abbrev pub new_endpoint : String → String → ServiceEndpoint
new_endpoint name address = record { name = name; address = address; weight = 1; metadata = [] }

abbrev pub with_weight : ℕ → ServiceEndpoint → ServiceEndpoint
with_weight weight e = record e { weight = weight }

abbrev pub with_endpoint_metadata : String → String → ServiceEndpoint → ServiceEndpoint
with_endpoint_metadata key value e = record e { metadata = insert key value e.metadata }

pub data LoadBalancingStrategy : Type 0 where
  round_robin random consistent_hash : LoadBalancingStrategy

-- whether every address of a list has the form of one
abbrev pub all_parse : (String → Bool) → List String → Bool
all_parse parses [] = true
all_parse parses (a ∷ addrs) = parses a && all_parse parses addrs

-- pingora_load_balancing, with what its documentation says: `try_from_iter` gives a balancer over
-- the addresses exactly where each of them parses; `select` gives a backend of one of its
-- addresses, and changes no more than the balancer's position.
pub record Pingora : Type 1 where
  pub LoadBalancer : Type 0
  pub Backend : Type 0
  pub try_from_iter : LoadBalancingStrategy → List String → Option LoadBalancer
  -- over at most 256 tries
  pub select : LoadBalancer → List ℕ → Option Backend × LoadBalancer
  pub parses : String → Bool
  pub serves : LoadBalancer → List String
  pub Backs : List String → Backend → Type 0
  pub built :
      (s : LoadBalancingStrategy) (addrs : List String)
      → all_parse parses addrs ≡ true
      → (b : LoadBalancer) × (try_from_iter s addrs ≡ some b) × (serves b ≡ addrs)
  pub not_built :
      (s : LoadBalancingStrategy) (addrs : List String)
      → all_parse parses addrs ≡ false
      → try_from_iter s addrs ≡ none
  pub selected :
      (b : LoadBalancer) (key : List ℕ) (backend : Backend)
      → (select b key).0 ≡ some backend
      → Backs (serves b) backend
  pub select_serves : (b : LoadBalancer) (key : List ℕ) → serves (select b key).1 ≡ serves b

pub record ServiceDiscovery (p : Pingora) : Type 0 where
  pub endpoints : Dict (List ServiceEndpoint)
  pub round_robin_lbs : Dict p.LoadBalancer
  pub random_lbs : Dict p.LoadBalancer
  pub consistent_lbs : Dict p.LoadBalancer
  pub strategy : LoadBalancingStrategy

abbrev pub addresses : List ServiceEndpoint → List String
addresses eps = map (λ (e : ServiceEndpoint). e.address) eps

-- `unwrap_or_default` of a list
abbrev pub or_default {ℓ} : {A : Type ℓ} → Option (List A) → List A
or_default none = []
or_default (some xs) = xs

module _ (p : Pingora) where
  open p use {LoadBalancer, Backend}

  unfoldable pub new : ServiceDiscovery p
  new = record {
    endpoints = [];
    round_robin_lbs = [];
    random_lbs = [];
    consistent_lbs = [];
    strategy = round_robin;
  }

  abbrev pub with_strategy : LoadBalancingStrategy → ServiceDiscovery p → ServiceDiscovery p
  with_strategy strategy d = record d { strategy = strategy }

  abbrev pub insert_built : String → Option LoadBalancer → Dict LoadBalancer → Dict LoadBalancer
  insert_built name (some lb) lbs = insert name lb lbs
  insert_built name none lbs = lbs

  abbrev pub rebuild_over :
      String → Option (List ServiceEndpoint) → ServiceDiscovery p → ServiceDiscovery p
  rebuild_over name none d = d
  rebuild_over name (some eps) d = record d {
    round_robin_lbs =
        insert_built name (p.try_from_iter round_robin (addresses eps)) d.round_robin_lbs;
    random_lbs = insert_built name (p.try_from_iter random (addresses eps)) d.random_lbs;
    consistent_lbs =
        insert_built name (p.try_from_iter consistent_hash (addresses eps)) d.consistent_lbs;
  }

  unfoldable pub rebuild_load_balancers : String → ServiceDiscovery p → ServiceDiscovery p
  rebuild_load_balancers name d = rebuild_over name (get name d.endpoints) d

  unfoldable pub register : ServiceEndpoint → ServiceDiscovery p → ServiceDiscovery p
  unfolding rebuild_load_balancers
  register e d = rebuild_load_balancers e.name (record d {
    endpoints = insert e.name (or_default (get e.name d.endpoints) ++ e ∷ []) d.endpoints;
  })

  abbrev pub without : String → List ServiceEndpoint → List ServiceEndpoint
  without address eps = retain (λ (e : ServiceEndpoint). not (str_eq e.address address)) eps

  abbrev pub drop_address :
      String
      → String
      → Option (List ServiceEndpoint)
      → Dict (List ServiceEndpoint)
      → Dict (List ServiceEndpoint)
  drop_address name address none m = m
  drop_address name address (some eps) m = insert name (without address eps) m

  unfoldable pub unregister : String → String → ServiceDiscovery p → ServiceDiscovery p
  unfolding rebuild_load_balancers
  unregister name address d =
      rebuild_load_balancers name
        (record d { endpoints = drop_address name address (get name d.endpoints) d.endpoints })

  unfoldable pub discover : String → ServiceDiscovery p → List ServiceEndpoint
  discover name d = or_default (get name d.endpoints)

  abbrev pub get_load_balancer : String → ServiceDiscovery p → Option LoadBalancer
  get_load_balancer name d = get name d.round_robin_lbs

  -- the table that a strategy uses, and the same discovery with another one in its place
  abbrev pub table : LoadBalancingStrategy → ServiceDiscovery p → Dict LoadBalancer
  table round_robin d = d.round_robin_lbs
  table random d = d.random_lbs
  table consistent_hash d = d.consistent_lbs

  abbrev pub set_table :
      LoadBalancingStrategy → Dict LoadBalancer → ServiceDiscovery p → ServiceDiscovery p
  set_table round_robin lbs d = record d { round_robin_lbs = lbs }
  set_table random lbs d = record d { random_lbs = lbs }
  set_table consistent_hash lbs d = record d { consistent_lbs = lbs }

  abbrev pub put_back :
      String
      → LoadBalancingStrategy
      → Option Backend × LoadBalancer
      → ServiceDiscovery p
      → Option Backend × ServiceDiscovery p
  put_back name s (backend, lb) d = (backend, set_table s (insert name lb (table s d)) d)

  abbrev pub select_from :
      String
      → List ℕ
      → Option LoadBalancer
      → ServiceDiscovery p
      → Option Backend × ServiceDiscovery p
  select_from name key none d = (none, d)
  select_from name key (some lb) d = put_back name d.strategy (p.select lb key) d

  unfoldable pub select_with_key :
      String → List ℕ → ServiceDiscovery p → Option Backend × ServiceDiscovery p
  select_with_key name key d = select_from name key (get name (table d.strategy d)) d

  -- with an empty key
  unfoldable pub select : String → ServiceDiscovery p → Option Backend × ServiceDiscovery p
  unfolding select_with_key
  select name d = select_with_key name [] d

  abbrev pub set_backend_health : String → String → Bool → ServiceDiscovery p → ServiceDiscovery p
  set_backend_health name address healthy d = d

  abbrev pub get_backend_health : String → String → ServiceDiscovery p → Bool
  get_backend_health name address d = true

  abbrev pub list_services : ServiceDiscovery p → List String
  list_services d = keys d.endpoints

-- `BackgroundHealthChecker`: `tasks` counts what it spawned. `connects` says of an address whether
-- a connection to it is made in time.
pub record BackgroundHealthChecker : Type 0 where
  pub interval : ℕ
  pub timeout : ℕ
  pub running : Bool
  pub tasks : ℕ

abbrev pub new_checker : BackgroundHealthChecker
new_checker = record { interval = 30000; timeout = 5000; running = false; tasks = 0 }

abbrev pub with_interval : ℕ → BackgroundHealthChecker → BackgroundHealthChecker
with_interval interval c = record c { interval = interval }

abbrev pub with_check_timeout : ℕ → BackgroundHealthChecker → BackgroundHealthChecker
with_check_timeout timeout c = record c { timeout = timeout }

unfoldable pub start_checker : BackgroundHealthChecker → BackgroundHealthChecker
start_checker c = if c.running then c else record c { running = true; tasks = suc c.tasks }

module _ (p : Pingora) (connects : String → Bool) where
  unfoldable pub check_endpoints :
      String → List ServiceEndpoint → ServiceDiscovery p → ServiceDiscovery p
  check_endpoints name [] d = d
  check_endpoints name (e ∷ eps) d =
      check_endpoints name eps (set_backend_health p name e.address (connects e.address) d)

  unfoldable pub check_services : List String → ServiceDiscovery p → ServiceDiscovery p
  unfolding check_endpoints
  check_services [] d = d
  check_services (name ∷ names) d =
      check_services names (check_endpoints name (discover p name d) d)

  unfoldable pub check_all_services : ServiceDiscovery p → ServiceDiscovery p
  unfolding check_services
  check_all_services d = check_services (list_services p d) d

-- ===== src/Discovery/Registry.antt =====
-- src/discovery.rs: what `discover` gives after `register` and `unregister`.
use xprotocol.Prelude.{
  ℕ, ◌≡◌, refl, ap, ◌∙◌, String, Option, none, some, List, [], ◌∷◌, ◌++◌, str_eq, eq_iff, arith,
  if◌then◌else◌,
}
use xprotocol.Prelude.Dict.{Dict, get, insert, get-insert}
use xprotocol.Discovery.{
  ServiceEndpoint, LoadBalancingStrategy, round_robin, random, consistent_hash, Pingora,
  ServiceDiscovery, or_default, new, rebuild_over, rebuild_load_balancers, register, without,
  drop_address, unregister, discover, select_with_key, select_from, set_table, table,
}

module _ (p : Pingora) where
  pub rebuild_over-endpoints :
      (name : String) (o : Option (List ServiceEndpoint)) (d : ServiceDiscovery p)
      → (rebuild_over p name o d).endpoints ≡ d.endpoints
  rebuild_over-endpoints name none d = refl
  rebuild_over-endpoints name (some eps) d = refl

  pub register-endpoints :
      (e : ServiceEndpoint) (d : ServiceDiscovery p)
      → (register p e d).endpoints
        ≡ insert e.name (or_default (get e.name d.endpoints) ++ e ∷ []) d.endpoints
  unfolding register rebuild_load_balancers
  register-endpoints e d = rebuild_over-endpoints e.name _ _

  pub unregister-endpoints :
      (name address : String) (d : ServiceDiscovery p)
      → (unregister p name address d).endpoints
        ≡ drop_address p name address (get name d.endpoints) d.endpoints
  unfolding unregister rebuild_load_balancers
  unregister-endpoints name address d = rebuild_over-endpoints name _ _

  get-drop_address :
      (name address other : String) (m : Dict (List ServiceEndpoint))
      (o : Option (List ServiceEndpoint))
      → get name m ≡ o
      → or_default (get other (drop_address p name address o m)) ≡ (
          if str_eq name other
          then without p address (or_default (get other m))
          else or_default (get other m))
  get-drop_address name address other m none h = ground (arith, h, eq_iff name other)
  get-drop_address name address other m (some eps) h =
      ground (arith, h, eq_iff name other, get-insert name other (without p address eps) m)

  set_table-endpoints :
      (s : LoadBalancingStrategy) (lbs : Dict p.LoadBalancer) (d : ServiceDiscovery p)
      → (set_table p s lbs d).endpoints ≡ d.endpoints
  set_table-endpoints round_robin lbs d = refl
  set_table-endpoints random lbs d = refl
  set_table-endpoints consistent_hash lbs d = refl

  select_from-endpoints :
      (name : String) (key : List ℕ) (o : Option p.LoadBalancer) (d : ServiceDiscovery p)
      → (select_from p name key o d).1.endpoints ≡ d.endpoints
  select_from-endpoints name key none d = refl
  select_from-endpoints name key (some lb) d = set_table-endpoints d.strategy _ d

  pub select_with_key-endpoints :
      (name : String) (key : List ℕ) (d : ServiceDiscovery p)
      → (select_with_key p name key d).1.endpoints ≡ d.endpoints
  unfolding select_with_key
  select_with_key-endpoints name key d =
      select_from-endpoints name key (get name (table p d.strategy d)) d

-- what is asked of a registry
pub data Command : Type 0 where
  registering : ServiceEndpoint → Command
  unregistering : (name address : String) → Command
  selecting : String → List ℕ → Command

module _ (p : Pingora) where
  abbrev pub run : ServiceDiscovery p → List Command → ServiceDiscovery p
  run d [] = d
  run d (registering e ∷ cs) = run (register p e d) cs
  run d (unregistering name address ∷ cs) = run (unregister p name address d) cs
  run d (selecting name key ∷ cs) = run (select_with_key p name key d).1 cs

  -- The endpoints of one name after a history: its registrations in order, without the addresses
  -- that were unregistered since.
  abbrev pub registered : String → List ServiceEndpoint → List Command → List ServiceEndpoint
  registered name eps [] = eps
  registered name eps (registering e ∷ cs) =
      registered name (if str_eq e.name name then eps ++ e ∷ [] else eps) cs
  registered name eps (unregistering other address ∷ cs) =
      registered name (if str_eq other name then without p address eps else eps) cs
  registered name eps (selecting other key ∷ cs) = registered name eps cs

  pub discover-register :
      (e : ServiceEndpoint) (name : String) (d : ServiceDiscovery p)
      → discover p name (register p e d)
        ≡ (if str_eq e.name name then discover p name d ++ e ∷ [] else discover p name d)
  unfolding discover
  discover-register e name d = rw (register-endpoints p e d) (
      ground (
        arith,
        eq_iff e.name name,
        get-insert e.name name (or_default (get e.name d.endpoints) ++ e ∷ []) d.endpoints,
      ))

  pub discover-unregister :
      (name address other : String) (d : ServiceDiscovery p)
      → discover p other (unregister p name address d)
        ≡ (if str_eq name other then without p address (discover p other d) else discover p other d)
  unfolding discover
  discover-unregister name address other d =
      rw (unregister-endpoints p name address d)
        (get-drop_address p name address other d.endpoints (get name d.endpoints) refl)

  pub discover-select :
      (name other : String) (key : List ℕ) (d : ServiceDiscovery p)
      → discover p other (select_with_key p name key d).1 ≡ discover p other d
  unfolding discover
  discover-select name other key d =
      ap (λ m. or_default (get other m)) (select_with_key-endpoints p name key d)

  run-registered :
      (name : String) (d : ServiceDiscovery p) (cs : List Command)
      → discover p name (run d cs) ≡ registered name (discover p name d) cs
  run-registered name d [] = refl
  run-registered name d (registering e ∷ cs) =
      run-registered name (register p e d) cs
      ∙ ap (λ eps. registered name eps cs) (discover-register e name d)
  run-registered name d (unregistering other address ∷ cs) =
      run-registered name (unregister p other address d) cs
      ∙ ap (λ eps. registered name eps cs) (discover-unregister other address name d)
  run-registered name d (selecting other key ∷ cs) =
      run-registered name (select_with_key p other key d).1 cs
      ∙ ap (λ eps. registered name eps cs) (discover-select other name key d)

  -- After any history of a new registry, `discover` gives exactly the endpoints that were
  -- registered under the name, in order and with repetitions, without those whose address was
  -- unregistered for that name since; selecting changes nothing of it.
  pub discover-run :
      (name : String) (cs : List Command) → discover p name (run (new p) cs) ≡ registered name [] cs
  unfolding new discover get
  discover-run name cs = run-registered name (new p) cs

-- ===== src/Discovery/Selecting.antt =====
-- src/discovery.rs: what `select` may give, and what the health checks change.
use xprotocol.Prelude.{
  ℕ, ◌≡◌, ◌≢◌, refl, sym, ap, subst, ◌∙◌, String, Bool, true, false, Option, none, some, List, [],
  ◌∷◌, ◌++◌, Bool-cases, ◌⊎◌, inl, inr, str_eq, eq_iff, arith,
}
use xprotocol.Prelude.Dict.{Dict, get, insert, get-insert}
use xprotocol.Discovery.{
  ServiceEndpoint, LoadBalancingStrategy, round_robin, random, consistent_hash, Pingora,
  ServiceDiscovery, addresses, all_parse, or_default, new, insert_built, rebuild_over,
  rebuild_load_balancers, register, without, drop_address, with_strategy, unregister, discover,
  select, select_with_key, select_from, set_table, table, check_endpoints, check_services,
  check_all_services, list_services,
}
use xprotocol.Discovery.Registry.{
  Command, registering, unregistering, selecting, run, select_with_key-endpoints,
}

module _ (p : Pingora) where
  open p use {LoadBalancer, Backend}

  abbrev pub serves_of : Option LoadBalancer → List String
  serves_of none = []
  serves_of (some lb) = p.serves lb

  -- Where the addresses under a name all parse, each balancer of the name serves just them.
  pub IsCurrent : String → Dict (List ServiceEndpoint) → Dict LoadBalancer → Type 0
  IsCurrent name eps lbs =
      all_parse p.parses (addresses (or_default (get name eps))) ≡ true
      → serves_of (get name lbs) ≡ addresses (or_default (get name eps))

  insert_built-other :
      (name other : String) (o : Option LoadBalancer) (lbs : Dict LoadBalancer)
      → str_eq name other ≡ false
      → get other (insert_built p name o lbs) ≡ get other lbs
  insert_built-other name other none lbs e = refl
  insert_built-other name other (some lb) lbs e = get-insert name other lb lbs ∙ rw e

  insert_built-serves :
      (name : String) (s : LoadBalancingStrategy) (addrs : List String) (lbs : Dict LoadBalancer)
      → all_parse p.parses addrs ≡ true
      → serves_of (get name (insert_built p name (p.try_from_iter s addrs) lbs)) ≡ addrs
  insert_built-serves name s addrs lbs h =
      let (lb, e, served) = p.built s addrs h in
      rw (e, get-insert name name lb lbs, str_eq-refl name, served)
    where
      str_eq-refl : (t : String) → str_eq t t ≡ true
      str_eq-refl t = ground (arith, eq_iff t t)

  -- the balancers of a name, built again over its endpoints
  insert_built-IsCurrent :
      (name other : String) (s : LoadBalancingStrategy) (eps : List ServiceEndpoint)
      (m : Dict (List ServiceEndpoint)) (lbs : Dict LoadBalancer)
      → get name m ≡ some eps
      → (str_eq name other ≡ false → IsCurrent other m lbs)
      → IsCurrent other m (insert_built p name (p.try_from_iter s (addresses eps)) lbs)
  unfolding IsCurrent
  insert_built-IsCurrent name other s eps m lbs e h parse = elim (Bool-cases (str_eq name other)) [
    | inl same ↦
        let this : name ≡ other = ground (arith, eq_iff name other) in
        subst
          (λ t.
            all_parse p.parses (addresses (or_default (get t m))) ≡ true
            → serves_of (get t (insert_built p name (p.try_from_iter s (addresses eps)) lbs))
              ≡ addresses (or_default (get t m)))
          this (λ k. rw e (insert_built-serves name s (addresses eps) lbs (rw e at k))) parse
    | inr apart ↦
        rw (insert_built-other name other (p.try_from_iter s (addresses eps)) lbs apart)
          (h apart parse)
  ]

  abbrev pub IsSound : ServiceDiscovery p → Type 0
  IsSound d =
      (s : LoadBalancingStrategy) (other : String) → IsCurrent other d.endpoints (table p s d)

  table-rebuild_over :
      (s : LoadBalancingStrategy) (name : String) (eps : List ServiceEndpoint)
      (d : ServiceDiscovery p)
      → table p s (rebuild_over p name (some eps) d)
        ≡ insert_built p name (p.try_from_iter s (addresses eps)) (table p s d)
  table-rebuild_over round_robin name eps d = refl
  table-rebuild_over random name eps d = refl
  table-rebuild_over consistent_hash name eps d = refl

  table-endpoints :
      (s : LoadBalancingStrategy) (m : Dict (List ServiceEndpoint)) (d : ServiceDiscovery p)
      → table p s (record d { endpoints = m }) ≡ table p s d
  table-endpoints round_robin m d = refl
  table-endpoints random m d = refl
  table-endpoints consistent_hash m d = refl

  -- Building the balancers of one name again is enough where those of the others are current.
  rebuild_over-IsSound :
      (name : String) (o : Option (List ServiceEndpoint)) (d : ServiceDiscovery p)
      → get name d.endpoints ≡ o
      → ((s : LoadBalancingStrategy) (other : String)
          → (str_eq name other ≡ false) ⊎ (get name d.endpoints ≡ none)
          → IsCurrent other d.endpoints (table p s d))
      → IsSound (rebuild_over p name o d)
  rebuild_over-IsSound name none d e h s other = h s other (inr e)
  rebuild_over-IsSound name (some eps) d e h s other =
      subst (λ lbs. IsCurrent other d.endpoints lbs) (sym (table-rebuild_over s name eps d))
        (insert_built-IsCurrent name other s eps d.endpoints (table p s d) e
          (λ k. h s other (inl k)))

  -- the same endpoints under a name, the same balancers
  IsCurrent-same :
      (other : String) (m n : Dict (List ServiceEndpoint)) (lbs : Dict LoadBalancer)
      → get other m ≡ get other n
      → IsCurrent other m lbs
      → IsCurrent other n lbs
  unfolding IsCurrent
  IsCurrent-same other m n lbs e h =
      subst
        (λ o.
          all_parse p.parses (addresses (or_default o)) ≡ true
          → serves_of (get other lbs) ≡ addresses (or_default o))
        e h

  register-IsSound :
      (e : ServiceEndpoint) (d : ServiceDiscovery p) → IsSound d → IsSound (register p e d)
  unfolding register rebuild_load_balancers
  register-IsSound e d h =
      let eps = or_default (get e.name d.endpoints) ++ e ∷ [] in
      let m = insert e.name eps d.endpoints in
      rebuild_over-IsSound e.name (get e.name m) (record d { endpoints = m }) refl
        (λ s other k. elim k [
          | inl apart ↦
              subst (λ lbs. IsCurrent other m lbs) (sym (table-endpoints s m d))
                (IsCurrent-same other d.endpoints m (table p s d)
                  (sym (get-insert e.name other eps d.endpoints ∙ rw apart)) (h s other))
          | inr missing ↦ absurd (inserted e.name eps d.endpoints missing)
        ])
    where
      inserted :
          (name : String) (eps : List ServiceEndpoint) (m : Dict (List ServiceEndpoint))
          → get name (insert name eps m) ≢ none
      inserted name eps m k = ground (arith, k, eq_iff name name, get-insert name name eps m)

  drop_address-IsSound :
      (name address : String) (o : Option (List ServiceEndpoint)) (d : ServiceDiscovery p)
      → get name d.endpoints ≡ o
      → IsSound d
      → (s : LoadBalancingStrategy) (other : String)
      → (str_eq name other ≡ false) ⊎ (get name (drop_address p name address o d.endpoints) ≡ none)
      → IsCurrent other (drop_address p name address o d.endpoints) (table p s d)
  drop_address-IsSound name address none d e h s other k = h s other
  drop_address-IsSound name address (some eps) d e h s other (inl apart) =
      IsCurrent-same other d.endpoints (insert name (without p address eps) d.endpoints)
        (table p s d) (sym (get-insert name other (without p address eps) d.endpoints ∙ rw apart))
        (h s other)
  drop_address-IsSound name address (some eps) d e h s other (inr missing) = absurd (
      ground (
        arith,
        missing,
        eq_iff name name,
        get-insert name name (without p address eps) d.endpoints,
      ))

  unregister-IsSound :
      (name address : String) (d : ServiceDiscovery p)
      → IsSound d
      → IsSound (unregister p name address d)
  unfolding unregister rebuild_load_balancers
  unregister-IsSound name address d h =
      let m = drop_address p name address (get name d.endpoints) d.endpoints in
      rebuild_over-IsSound name (get name m) (record d { endpoints = m }) refl
        (λ s other k.
          subst (λ lbs. IsCurrent other m lbs) (sym (table-endpoints s m d))
            (drop_address-IsSound name address (get name d.endpoints) d refl h s other k))

  serves_of-insert :
      (name other : String) (lb : LoadBalancer) (lbs : Dict LoadBalancer)
      → p.serves lb ≡ serves_of (get name lbs)
      → serves_of (get other (insert name lb lbs)) ≡ serves_of (get other lbs)
  serves_of-insert name other lb lbs e =
      ground (arith, e, eq_iff name other, get-insert name other lb lbs)

  -- A balancer that moved on stands in for the one it was.
  serves_of-set_table :
      (t s : LoadBalancingStrategy) (name other : String) (lb : LoadBalancer)
      (d : ServiceDiscovery p)
      → p.serves lb ≡ serves_of (get name (table p t d))
      → serves_of (get other (table p s (set_table p t (insert name lb (table p t d)) d)))
        ≡ serves_of (get other (table p s d))
  serves_of-set_table round_robin round_robin name other lb d e =
      serves_of-insert name other lb d.round_robin_lbs e
  serves_of-set_table round_robin random name other lb d e = refl
  serves_of-set_table round_robin consistent_hash name other lb d e = refl
  serves_of-set_table random round_robin name other lb d e = refl
  serves_of-set_table random random name other lb d e =
      serves_of-insert name other lb d.random_lbs e
  serves_of-set_table random consistent_hash name other lb d e = refl
  serves_of-set_table consistent_hash round_robin name other lb d e = refl
  serves_of-set_table consistent_hash random name other lb d e = refl
  serves_of-set_table consistent_hash consistent_hash name other lb d e =
      serves_of-insert name other lb d.consistent_lbs e

  serves_of-select_from :
      (s : LoadBalancingStrategy) (name other : String) (key : List ℕ) (o : Option LoadBalancer)
      (d : ServiceDiscovery p)
      → get name (table p d.strategy d) ≡ o
      → serves_of (get other (table p s (select_from p name key o d).1))
        ≡ serves_of (get other (table p s d))
  serves_of-select_from s name other key none d e = refl
  serves_of-select_from s name other key (some lb) d e =
      serves_of-set_table d.strategy s name other (p.select lb key).1 d
        (p.select_serves lb key ∙ ap serves_of (sym e))

  serves_of-select :
      (s : LoadBalancingStrategy) (name other : String) (key : List ℕ) (d : ServiceDiscovery p)
      → serves_of (get other (table p s (select_with_key p name key d).1))
        ≡ serves_of (get other (table p s d))
  unfolding select_with_key
  serves_of-select s name other key d =
      serves_of-select_from s name other key (get name (table p d.strategy d)) d refl

  select-IsSound :
      (name : String) (key : List ℕ) (d : ServiceDiscovery p)
      → IsSound d
      → IsSound (select_with_key p name key d).1
  unfolding IsCurrent
  select-IsSound name key d h s other =
      rw (select_with_key-endpoints p name key d)
        (λ parse. serves_of-select s name other key d ∙ h s other parse)

  run-IsSound : (d : ServiceDiscovery p) (cs : List Command) → IsSound d → IsSound (run p d cs)
  run-IsSound d [] h = h
  run-IsSound d (registering e ∷ cs) h = run-IsSound (register p e d) cs (register-IsSound e d h)
  run-IsSound d (unregistering name address ∷ cs) h =
      run-IsSound (unregister p name address d) cs (unregister-IsSound name address d h)
  run-IsSound d (selecting name key ∷ cs) h =
      run-IsSound (select_with_key p name key d).1 cs (select-IsSound name key d h)

  select_from-Backs :
      (name : String) (key : List ℕ) (o : Option LoadBalancer) (d : ServiceDiscovery p)
      (backend : Backend)
      → (select_from p name key o d).0 ≡ some backend
      → p.Backs (serves_of o) backend
  select_from-Backs name key none d backend e = cc
  select_from-Backs name key (some lb) d backend e = p.selected lb key backend e

  -- After any history of a new registry, with any strategy: where the addresses that are registered
  -- under a name all parse, a backend that is selected for the name is one of them.
  pub select_with_key-registered :
      (strategy : LoadBalancingStrategy) (cs : List Command) (name : String) (key : List ℕ)
      (backend : Backend)
      → all_parse p.parses
          (addresses (discover p name (run p (with_strategy p strategy (new p)) cs)))
        ≡ true
      → (select_with_key p name key (run p (with_strategy p strategy (new p)) cs)).0 ≡ some backend
      → p.Backs (addresses (discover p name (run p (with_strategy p strategy (new p)) cs))) backend
  unfolding select_with_key discover IsCurrent new get
  select_with_key-registered strategy cs name key backend parse e =
      let d = run p (with_strategy p strategy (new p)) cs in
      subst (λ addrs. p.Backs addrs backend)
        (run-IsSound (with_strategy p strategy (new p)) cs new-IsSound d.strategy name parse)
        (select_from-Backs name key (get name (table p d.strategy d)) d backend e)
    where
      new-IsSound : IsSound (with_strategy p strategy (new p))
      new-IsSound round_robin other k = refl
      new-IsSound random other k = refl
      new-IsSound consistent_hash other k = refl

  rebuild_over-stale :
      (name : String) (eps : List ServiceEndpoint) (d : ServiceDiscovery p)
      → all_parse p.parses (addresses eps) ≡ false
      → rebuild_over p name (some eps) d ≡ d
  rebuild_over-stale name eps d e = rw (
    p.not_built round_robin (addresses eps) e,
    p.not_built random (addresses eps) e,
    p.not_built consistent_hash (addresses eps) e,
  )

  check_endpoints-same :
      (connects : String → Bool) (name : String) (eps : List ServiceEndpoint)
      (d : ServiceDiscovery p)
      → check_endpoints p connects name eps d ≡ d
  unfolding check_endpoints
  check_endpoints-same connects name [] d = refl
  check_endpoints-same connects name (e ∷ eps) d = check_endpoints-same connects name eps d

  check_services-same :
      (connects : String → Bool) (names : List String) (d : ServiceDiscovery p)
      → check_services p connects names d ≡ d
  unfolding check_services
  check_services-same connects [] d = refl
  check_services-same connects (name ∷ names) d =
      rw (check_endpoints-same connects name (discover p name d) d)
        (check_services-same connects names d)

  -- A round of health checks changes nothing, whatever the addresses answer: `select` gives after
  -- it what it gives without it.
  pub select-check_all_services :
      (connects : String → Bool) (name : String) (d : ServiceDiscovery p)
      → select p name (check_all_services p connects d) ≡ select p name d
  unfolding check_all_services
  select-check_all_services connects name d =
      ap (select p name) (check_services-same connects (list_services p d) d)

  get-insert_same :
      (name : String) (eps : List ServiceEndpoint) (m : Dict (List ServiceEndpoint))
      → get name (insert name eps m) ≡ some eps
  get-insert_same name eps m = ground (arith, eq_iff name name, get-insert name name eps m)

  unregister-stale :
      (name address : String) (eps : List ServiceEndpoint) (d : ServiceDiscovery p)
      → get name d.endpoints ≡ some eps
      → all_parse p.parses (addresses (without p address eps)) ≡ false
      → unregister p name address d
        ≡ record d { endpoints = insert name (without p address eps) d.endpoints }
  unfolding unregister rebuild_load_balancers
  unregister-stale name address eps d e bad =
      rw (e, get-insert_same name (without p address eps) d.endpoints)
        (rebuild_over-stale name (without p address eps)
          (record d { endpoints = insert name (without p address eps) d.endpoints }) bad)

  select_from-backend :
      (name : String) (key : List ℕ) (o : Option LoadBalancer) (d e : ServiceDiscovery p)
      → (select_from p name key o d).0 ≡ (select_from p name key o e).0
  select_from-backend name key none d e = refl
  select_from-backend name key (some lb) d e = refl

  select-endpoints :
      (name : String) (key : List ℕ) (m : Dict (List ServiceEndpoint)) (d : ServiceDiscovery p)
      → (select_with_key p name key (record d { endpoints = m })).0
        ≡ (select_with_key p name key d).0
  unfolding select_with_key
  select-endpoints name key m d = rw (table-endpoints d.strategy m d) (
      select_from-backend name key (get name (table p d.strategy d)) (record d { endpoints = m }) d)

  -- Where an address stays under a name that does not parse, unregistering another one takes it out
  -- of `discover` and leaves the balancers as they are: `select` still gives what it gave before.
  pub unregister_keeps_serving :
      (name address : String) (key : List ℕ) (eps : List ServiceEndpoint) (d : ServiceDiscovery p)
      → get name d.endpoints ≡ some eps
      → all_parse p.parses (addresses (without p address eps)) ≡ false
      → ((select_with_key p name key (unregister p name address d)).0
          ≡ (select_with_key p name key d).0)
        × (discover p name (unregister p name address d) ≡ without p address eps)
  unfolding discover
  unregister_keeps_serving name address key eps d e bad =
      rw (unregister-stale name address eps d e bad) (
        select-endpoints name key (insert name (without p address eps) d.endpoints) d,
        ap or_default (get-insert_same name (without p address eps) d.endpoints),
      )

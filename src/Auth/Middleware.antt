-- ===== src/Auth/Middleware.antt =====
-- src/auth.rs: `AuthMiddleware::check` and `AuthContext::has_permission`.
use text.Mathlib.TextPositions.{eq_refl}
use xprotocol.Prelude.{
  ℕ, ◌≡◌, refl, ◌∙◌, String, true, ◌||◌, Option, none, some, List, [], ◌∷◌, ◌++◌, any, arith,
  eq_iff, if◌then◌else◌,
}
use xprotocol.Prelude.Dict.{get, get-insert}
use xprotocol.Error.{Result, ok, err, protocol, ◌>>=◌}
use xprotocol.Auth.{
  Credentials, Permission, AuthContext, AuthMiddleware, all_permissions, contains, is_valid,
  has_permission, check, check_required, require_permission, or_default, covers_service,
  covers_method,
}

abbrev pub map_ok : (AuthContext → AuthContext) → Result AuthContext → Result AuthContext
map_ok f (ok ctx) = ok (f ctx)
map_ok f (err e) = err e

-- the authenticator that grants other permissions
abbrev pub regrant : (AuthContext → List Permission) → AuthContext → AuthContext
regrant f ctx = record ctx { permissions = f ctx }

abbrev pub regranting : (AuthContext → List Permission) → AuthMiddleware → AuthMiddleware
regranting f m = record m { authenticator = λ now c. map_ok (regrant f) (m.authenticator now c) }

check_required-regrant :
    (f : AuthContext → List Permission) (o : Option (List Permission)) (p : Permission)
    (ctx : AuthContext)
    → check_required o p (regrant f ctx) ≡ map_ok (regrant f) (check_required o p ctx)
unfolding check_required
check_required-regrant f none p ctx = refl
check_required-regrant f (some required) p ctx = ground arith

-- `check` does not look at the permissions of the client: whatever permissions the authenticator
-- grants in their place, the same calls pass and the same calls are refused, with the same errors.
pub check-regranting :
    (f : AuthContext → List Permission) (m : AuthMiddleware) (now : ℕ) (c : Credentials)
    (service method : String)
    → check (regranting f m) now c service method
      ≡ map_ok (regrant f) (check m now c service method)
unfolding check is_valid
check-regranting f m now c service method = after (m.authenticator now c)
  where
    asked : Permission
    asked = record { service = service; method = method }

    rest : AuthContext → Result AuthContext
    rest ctx =
        if is_valid now ctx
        then check_required (get service m.required_permissions) asked ctx
        else err (protocol "authentication expired")

    after :
        (r : Result AuthContext) → (map_ok (regrant f) r >>= rest) ≡ map_ok (regrant f) (r >>= rest)
    after (ok ctx) =
        ground (arith, check_required-regrant f (get service m.required_permissions) asked ctx)
    after (err e) = refl

-- What `check` decides for a client that the authenticator knows and whose context has not
-- expired: a service without requirements is open to all, and otherwise the requested pair, or
-- the pair of two stars, must be on the list of the service.
pub check_outcome :
    (m : AuthMiddleware) (now : ℕ) (c : Credentials) (service method : String) (ctx : AuthContext)
    → m.authenticator now c ≡ ok ctx
    → is_valid now ctx ≡ true
    → check m now c service method ≡ elim (get service m.required_permissions) [
      | none ↦ ok ctx
      | some required ↦
          if contains required (record { service = service; method = method })
            || contains required all_permissions
          then ok ctx
          else err (protocol "permission denied")
    ]
unfolding check check_required
check_outcome m now c service method ctx h v = rw (h, v) (ground arith)

contains-append_last : (ps : List Permission) (p : Permission) → contains (ps ++ p ∷ []) p ≡ true
unfolding contains
contains-append_last [] p = ground (arith, eq_iff p.service p.service, eq_iff p.method p.method)
contains-append_last (q ∷ ps) p = ground (arith, contains-append_last ps p)

-- A requirement that was added for a service admits the call it names, whatever stood on the list
-- of the service before.
pub check-require_permission :
    (m : AuthMiddleware) (now : ℕ) (c : Credentials) (service method : String) (ctx : AuthContext)
    → m.authenticator now c ≡ ok ctx
    → is_valid now ctx ≡ true
    → check
        (require_permission service (record { service = service; method = method }) m)
        now
        c
        service
        method
      ≡ ok ctx
unfolding require_permission
check-require_permission m now c service method ctx h v =
    check_outcome _ now c service method ctx h v
    ∙ rw (get-insert, eq_refl service)
        (rw (
          contains-append_last (or_default (get service m.required_permissions))
            (record { service = service; method = method })))

module _ (p q : Permission) where
  any-covers_service :
      (method : String) (ps : List Permission)
      → contains ps p ≡ true
      → any (covers_service (record { service = p.service; method = method })) ps ≡ true
  unfolding contains covers_service
  any-covers_service method [] h = h
  any-covers_service method (x ∷ ps) h =
      ground (arith, eq_iff x.service p.service, any-covers_service method ps)

  any-covers_method :
      (service : String) (ps : List Permission)
      → contains ps q ≡ true
      → any (covers_method (record { service = service; method = q.method })) ps ≡ true
  unfolding contains covers_method
  any-covers_method service [] h = h
  any-covers_method service (x ∷ ps) h =
      ground (arith, eq_iff x.method q.method, any-covers_method service ps)

  -- Whoever has a permission `p` for one service and a permission `q` for another method has the
  -- method of `q` on the service of `p` too, although no single permission need grant it.
  pub has_permission_cross :
      (ctx : AuthContext)
      → contains ctx.permissions p ≡ true
      → contains ctx.permissions q ≡ true
      → has_permission ctx (record { service = p.service; method = q.method }) ≡ true
  unfolding has_permission
  has_permission_cross ctx h k =
      rw (
        any-covers_service q.method ctx.permissions h,
        any-covers_method p.service ctx.permissions k,
      )

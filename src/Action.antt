-- ===== src/Action.antt =====
-- Actions on a state that may fail: async methods whose `?` leaves early. What an action changed
-- before it failed stays changed.
use xprotocol.Prelude.{◌≡◌, refl, arith}
use xprotocol.Error.{ProtocolError, Result, ok, err, IoResult, io_ok, io_err, from_io}

abbrev pub Action {ℓ} : Type ℓ → Type ℓ → Type ℓ
Action S A = S → Result A × S

abbrev pub continue {ℓ} : {S A B : Type ℓ} → Result A × S → (A → Action S B) → Result B × S
continue (ok a, s) f = f a s
continue (err e, s) f = (err e, s)

abbrev pub pure {ℓ} : {S A : Type ℓ} → A → Action S A
pure a s = (ok a, s)

abbrev pub fail {ℓ} : {S A : Type ℓ} → ProtocolError → Action S A
fail e s = (err e, s)

abbrev pub lift {ℓ} : {S A : Type ℓ} → Result A → Action S A
lift r s = (r, s)

-- A call of the operating system under `?`.
abbrev pub after_io {ℓ} : {S A : Type ℓ} → IoResult A × S → Result A × S
after_io (r, s) = (from_io r, s)

abbrev pub io {ℓ} : {S A : Type ℓ} → (S → IoResult A × S) → Action S A
io f s = after_io (f s)

infixl 10 ◌>>=◌ ◌>>◌
abbrev pub ◌>>=◌ {ℓ} : {S A B : Type ℓ} → Action S A → (A → Action S B) → Action S B
◌>>=◌ m f s = continue (m s) f

abbrev pub ◌>>◌ {ℓ} : {S A B : Type ℓ} → Action S A → Action S B → Action S B
◌>>◌ m k s = continue (m s) (λ _. k)

-- Inversion of a sequence that succeeded.
pub continue-eq-ok {ℓ} :
    {S A B : Type ℓ} (x : Result A × S) (f : A → Action S B) {b : B} {s' : S}
    → continue x f ≡ (ok b, s')
    → (a : A) × (s : S) × (x ≡ (ok a, s)) × (f a s ≡ (ok b, s'))
continue-eq-ok (ok a, s) f h = (a, s, refl, h)
continue-eq-ok (err e, s) f h = cc

after_io-eq-ok {ℓ} :
    {S A : Type ℓ} (x : IoResult A × S) {a : A} {s' : S}
    → after_io x ≡ (ok a, s')
    → x ≡ (io_ok a, s')
after_io-eq-ok (io_ok a, s) h = ground arith
after_io-eq-ok (io_err e, s) h = cc

pub io-eq-ok {ℓ} :
    {S A : Type ℓ} (f : S → IoResult A × S) (s : S) {a : A} {s' : S}
    → io f s ≡ (ok a, s')
    → f s ≡ (io_ok a, s')
io-eq-ok f s h = after_io-eq-ok (f s) h

pub io-bind-eq-ok {ℓ} :
    {S A B : Type ℓ} (f : S → IoResult A × S) (k : A → Action S B) (s : S) {b : B} {s' : S}
    → continue (io f s) k ≡ (ok b, s')
    → (a : A) × (s1 : S) × (f s ≡ (io_ok a, s1)) × (k a s1 ≡ (ok b, s'))
io-bind-eq-ok f k s h =
    let (a, s1, e, h1) = continue-eq-ok (io f s) k h in (a, s1, io-eq-ok f s e, h1)

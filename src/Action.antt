-- ===== src/Action.antt =====
-- A call as state and exceptions. The state comes back after a raise too, since what a method has
-- written stays written.
pub mod Keeps
use pizzaria_api.Prelude.{◌≡◌, refl, ap, Option, none, some, Bool, if◌then◌else◌}
use pizzaria_api.Errors.{DomainError, Exception, domain}

pub data Result {ℓ} (A : Type ℓ) : Type ℓ where
  ok : A → Result A
  failed : Exception → Result A

abbrev pub Action : Type 0 → Type 0 → Type 0
Action S A = S → Result A × S

abbrev pub pure : {S A : Type 0} → A → Action S A
pure a s = (ok a, s)

abbrev pub raise : {S A : Type 0} → DomainError → Action S A
raise e s = (failed (domain e), s)

-- The rest of a method, on what its first call gave.
abbrev pub resume : {S A B : Type 0} → (A → Action S B) → Result A × S → Result B × S
resume f (ok a, s) = f a s
resume f (failed e, s) = (failed e, s)

infixl 5 ◌>>=◌ ◌>>◌
abbrev pub ◌>>=◌ : {S A B : Type 0} → Action S A → (A → Action S B) → Action S B
◌>>=◌ m f s = resume f (m s)

abbrev pub ◌>>◌ : {S A B : Type 0} → Action S A → Action S B → Action S B
m >> k = m >>= λ _. k

abbrev pub gets : {S A : Type 0} → (S → A) → Action S A
gets f s = (ok (f s), s)

abbrev pub modify : {S : Type 0} → (S → S) → Action S (Unit {0})
modify f s = (ok tt, f s)

abbrev pub raise_if : {S : Type 0} → Bool → DomainError → Action S (Unit {0})
raise_if b e s = (if b then failed (domain e) else ok tt, s)

-- `if x is None: raise e`, for the rest of the method to use `x`
abbrev pub or_raise : {S A : Type 0} → Option A → DomainError → Action S A
or_raise none e s = (failed (domain e), s)
or_raise (some a) e s = (ok a, s)

-- The end of `try: … finally: …`, on what the body gave: an exception of the cleaning up goes
-- before the body's result.
abbrev pub cleaned : {S A : Type 0} → Result A → Result (Unit {0}) × S → Result A × S
cleaned r (ok _, s) = (r, s)
cleaned r (failed e, s) = (failed e, s)

abbrev pub finally : {S A : Type 0} → Action S A → Action S (Unit {0}) → Action S A
finally body cleanup s = let (r, t) = body s in cleaned r (cleanup t)

-- What follows a call that returned, and one that raised.
pub >>=_ok :
    {S A B : Type 0} (m : Action S A) (f : A → Action S B) (s : S) {s' : S} {a : A}
    → m s ≡ (ok a, s')
    → (m >>= f) s ≡ f a s'
>>=_ok m f s h = ap (resume f) h

pub >>=_failed :
    {S A B : Type 0} (m : Action S A) (f : A → Action S B) (s : S) {s' : S} {e : Exception}
    → m s ≡ (failed e, s')
    → (m >>= f) s ≡ (failed e, s')
>>=_failed m f s h = ap (resume f) h

-- A call that returned, returned at each of its steps.
pub resume_inv :
    {S A B : Type 0} (f : A → Action S B) (p : Result A × S) {t : S} {b : B}
    → resume f p ≡ (ok b, t)
    → (a : A) × (s : S) × (p ≡ (ok a, s)) × (f a s ≡ (ok b, t))
resume_inv f (ok a, s) h = (a, s, refl, h)
resume_inv f (failed e, s) h = cc (ap (λ p. p.0) h)

pub >>=_inv :
    {S A B : Type 0} (m : Action S A) (f : A → Action S B) (s : S) {t : S} {b : B}
    → (m >>= f) s ≡ (ok b, t)
    → (a : A) × (s' : S) × (m s ≡ (ok a, s')) × (f a s' ≡ (ok b, t))
>>=_inv m f s h = resume_inv f (m s) h

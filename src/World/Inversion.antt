-- ===== src/World/Inversion.antt =====
-- What a call of the client that returned says of the reply.
use pizzaria_api.Prelude.{◌≡◌, refl, ap, sym, Bool, true, false, Option, none, some}
use pizzaria_api.Errors.{Exception, DomainError}
use pizzaria_api.Action.{Action, Result, ok, failed, pure, ◌>>=◌, ◌>>◌, or_raise, raise_if}
use pizzaria_api.Prisma.Table.{
  Reply, returned, raised, unique_violation, record_not_found, other_error,
}
use pizzaria_api.World.{
  W, Context, World, Db, settle, execute, query, or_unhandled, settle_unique, settle_found,
}

pub failed_ok :
    {A S : Type 0} {e : Exception} {a : A} {s t : S}
    → ◌≡◌ {A = Result A × S} (failed e, s) (ok a, t)
    → ⊥
failed_ok h = cc (ap (λ p. p.0) h)

pub ok_state :
    {A S : Type 0} {a b : A} {s t : S}
    → ◌≡◌ {A = Result A × S} (ok a, s) (ok b, t)
    → (a ≡ b) × (s ≡ t)
ok_state h = (cc (ap (λ p. p.0) h), ap (λ p. p.1) h)

-- A value that the code went on with was there.
pub or_raise_inv :
    {A S : Type 0} (found : Option A) (e : DomainError) (a : A) (s t : S)
    → or_raise found e s ≡ (ok a, t)
    → (found ≡ some a) × (t ≡ s)
or_raise_inv none e a s t h = absurd (failed_ok h)
or_raise_inv (some b) e a s t h = let (p, q) = ok_state h in (ap some p, sym q)

pub raise_if_inv :
    {S : Type 0} (b : Bool) (e : DomainError) {u : Unit {0}} (s t : S)
    → raise_if b e s ≡ (ok u, t)
    → (b ≡ false) × (t ≡ s)
raise_if_inv true e s t h = absurd (failed_ok h)
raise_if_inv false e s t h = let (_, q) = ok_state h in (refl, sym q)

-- The same, step by step: what a step that returned hands on to the rest of the call.
pub or_raise_then :
    {A B S : Type 0} {C : Type 0} (found : Option A) (e : DomainError) (f : A → Action S B) (s : S)
    {b : B} {t : S}
    → (or_raise found e >>= f) s ≡ (ok b, t)
    → ((a : A) → found ≡ some a → f a s ≡ (ok b, t) → C)
    → C
or_raise_then none e f s h k = absurd (failed_ok h)
or_raise_then (some a) e f s h k = k a refl h

pub raise_if_then :
    {B S : Type 0} (c : Bool) (e : DomainError) (m : Action S B) (s : S) {b : B} {t : S}
    → (raise_if c e >> m) s ≡ (ok b, t)
    → m s ≡ (ok b, t)
raise_if_then true e m s h = absurd (failed_ok h)
raise_if_then false e m s h = h

module _ (ctx : Context) where
  settle_then :
      {A B C : Type 0} (r : Reply A) (f : A → Action (W ctx) B) (s : World ctx) {b : B}
      {t : World ctx}
      → (settle ctx r >>= f) s ≡ (ok b, t)
      → ((a : A) → r ≡ returned a → f a s ≡ (ok b, t) → C)
      → C
  settle_then (returned a) f s h k = k a refl h
  settle_then (raised e) f s h k = absurd (failed_ok h)

  pub query_then :
      {A B C : Type 0} (q : Db ctx → Reply A) (f : A → Action (W ctx) B) (s : World ctx) {b : B}
      {t : World ctx}
      → (query ctx q >>= f) s ≡ (ok b, t)
      → ((a : A) → q s.db ≡ returned a → f a s ≡ (ok b, t) → C)
      → C
  query_then q f s h k = settle_then (q s.db) f s h k

  pub or_unhandled_then :
      {A B C : Type 0} (found : Option A) (f : A → Action (W ctx) B) (s : World ctx) {b : B}
      {t : World ctx}
      → (or_unhandled ctx found >>= f) s ≡ (ok b, t)
      → ((a : A) → found ≡ some a → f a s ≡ (ok b, t) → C)
      → C
  or_unhandled_then none f s h k = absurd (failed_ok h)
  or_unhandled_then (some a) f s h k = k a refl h

  reply_inv :
      {A : Type 0} (p : Reply A × Db ctx) (s t : World ctx)
      → (settle ctx p.0 >> pure tt) (record s { db = p.1 }) ≡ (ok tt, t)
      → (a : A) × (p ≡ (returned a, t.db)) × (t.outbox ≡ s.outbox)
  reply_inv (returned a, db) s t h = let e = ap (λ q. q.1) h in (a, rw (← e) refl, rw (← e) refl)
  reply_inv (raised e, db) s t h = absurd (failed_ok h)

  -- A write whose reply is settled and forgotten.
  pub execute_inv :
      {A : Type 0} (f : Db ctx → Reply A × Db ctx) (s t : World ctx)
      → (execute ctx f >>= λ reply. settle ctx reply >> pure tt) s ≡ (ok tt, t)
      → (a : A) × (f s.db ≡ (returned a, t.db)) × (t.outbox ≡ s.outbox)
  execute_inv f s t h = reply_inv (f s.db) s t h

  pub settle_inv :
      {A : Type 0} (r : Reply A) (a : A) (s t : World ctx)
      → settle ctx r s ≡ (ok a, t)
      → (r ≡ returned a) × (t ≡ s)
  settle_inv (returned b) a s t h = let (p, q) = ok_state h in (ap returned p, sym q)
  settle_inv (raised e) a s t h = absurd (failed_ok h)

  -- A read changes nothing.
  pub query_inv :
      {A : Type 0} (f : Db ctx → Reply A) (a : A) (s t : World ctx)
      → query ctx f s ≡ (ok a, t)
      → (f s.db ≡ returned a) × (t ≡ s)
  query_inv f a s t h = settle_inv (f s.db) a s t h

  pub or_unhandled_inv :
      {A : Type 0} (found : Option A) (a : A) (s t : World ctx)
      → or_unhandled ctx found s ≡ (ok a, t)
      → (found ≡ some a) × (t ≡ s)
  or_unhandled_inv none a s t h = absurd (failed_ok h)
  or_unhandled_inv (some b) a s t h = let (p, q) = ok_state h in (ap some p, sym q)

  pub settle_unique_inv :
      {A : Type 0} (error : DomainError) (r : Reply A) (a : A) (s t : World ctx)
      → settle_unique ctx error r s ≡ (ok a, t)
      → (r ≡ returned a) × (t ≡ s)
  settle_unique_inv error (returned b) a s t h = let (p, q) = ok_state h in (ap returned p, sym q)
  settle_unique_inv error (raised unique_violation) a s t h = absurd (failed_ok h)
  settle_unique_inv error (raised record_not_found) a s t h = absurd (failed_ok h)
  settle_unique_inv error (raised other_error) a s t h = absurd (failed_ok h)

  found_reply_inv :
      {A : Type 0} (error : DomainError) (p : Reply A × Db ctx) (s t : World ctx)
      → (settle_found ctx error p.0 >> pure tt) (record s { db = p.1 }) ≡ (ok tt, t)
      → (a : A) × (p ≡ (returned a, t.db))
  found_reply_inv error (returned a, db) s t h = let e = ap (λ q. q.1) h in (a, rw (← e) refl)
  found_reply_inv error (raised unique_violation, db) s t h = absurd (failed_ok h)
  found_reply_inv error (raised record_not_found, db) s t h = absurd (failed_ok h)
  found_reply_inv error (raised other_error, db) s t h = absurd (failed_ok h)

  -- A write that must find its row, with the row forgotten.
  pub found_inv :
      {A : Type 0} (f : Db ctx → Reply A × Db ctx) (error : DomainError) (s t : World ctx)
      → (execute ctx f >>= λ reply. settle_found ctx error reply >> pure tt) s ≡ (ok tt, t)
      → (a : A) × (f s.db ≡ (returned a, t.db))
  found_inv f error s t h = found_reply_inv error (f s.db) s t h

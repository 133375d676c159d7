-- ===== src/Action/Keeps.antt =====
-- What holds of the state through a call, whether it returns or raises: the rules for a sequence of
-- calls and for `try: … finally: …`.
use pizzaria_api.Prelude.{Bool, Option, none, some}
use pizzaria_api.Errors.{DomainError}
use pizzaria_api.Action.{
  Action, Result, ok, failed, resume, cleaned, pure, raise, finally, or_raise, raise_if, ◌>>=◌,
}

module _ {S : Type 0} (P : S → Type 0) where
  abbrev pub Keeps : {A : Type 0} → Action S A → Type 0
  Keeps m = (p : S) → P p → P (m p).1

  pub resume_Keeps :
      {A B : Type 0} (f : A → Action S B) (r : Result A) (q : S)
      → ((a : A) → Keeps (f a))
      → P q
      → P (resume f (r, q)).1
  resume_Keeps f (ok a) q k h = k a q h
  resume_Keeps f (failed e) q k h = h

  pub then_Keeps :
      {A B : Type 0} (m : Action S A) (f : A → Action S B)
      → Keeps m
      → ((a : A) → Keeps (f a))
      → Keeps (m >>= f)
  then_Keeps m f h k p v = resume_Keeps f (m p).0 (m p).1 k (h p v)

  cleaned_Keeps :
      {A : Type 0} (r : Result A) (s : Result (Unit {0})) (q : S) → P q → P (cleaned r (s, q)).1
  cleaned_Keeps r (ok _) q h = h
  cleaned_Keeps r (failed e) q h = h

  pub finally-Keeps :
      {A : Type 0} (body : Action S A) (cleanup : Action S (Unit {0}))
      → Keeps body
      → Keeps cleanup
      → Keeps (finally body cleanup)
  finally-Keeps body cleanup h k p v =
      let q = (body p).1 in cleaned_Keeps (body p).0 (cleanup q).0 (cleanup q).1 (k q (h p v))

-- The same as a record, for `search` to find the proof by the shape of the call.
pub record Preserves {S A : Type 0} (P : S → Type 0) (m : Action S A) : Type 0 where
  pub at : Keeps P m

module _ {S : Type 0} {P : S → Type 0} where
  pub Preserves-pure : {A : Type 0} (a : A) → Preserves P (pure {S = S} a)
  Preserves-pure a = record { at = λ p h. h }

  pub Preserves-raise : {A : Type 0} (e : DomainError) → Preserves P (raise {S = S} {A = A} e)
  Preserves-raise e = record { at = λ p h. h }

  pub Preserves-raise_if : (c : Bool) (e : DomainError) → Preserves P (raise_if {S = S} c e)
  Preserves-raise_if c e = record { at = λ p h. h }

  pub Preserves-or_raise :
      {A : Type 0} (found : Option A) (e : DomainError) → Preserves P (or_raise {S = S} found e)
  Preserves-or_raise none e = record { at = λ p h. h }
  Preserves-or_raise (some a) e = record { at = λ p h. h }

  pub Preserves-then :
      {A B : Type 0} (m : Action S A) (f : A → Action S B)
      → Preserves P m
      → ((a : A) → Preserves P (f a))
      → Preserves P (m >>= f)
  Preserves-then m f h k = record { at = then_Keeps P m f h.at (λ a. (k a).at) }

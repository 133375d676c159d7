-- ===== src/World/Keeps.antt =====
-- What holds of the database through a call that reads it, writes it, or leaves it alone.
use pizzaria_api.Prelude.{◌≡◌, refl, Option, none, some}
use pizzaria_api.Errors.{DomainError}
use pizzaria_api.Action.{Action, ◌>>=◌}
use pizzaria_api.Action.Keeps.{Preserves}
use pizzaria_api.Prisma.Table.{
  Reply, returned, raised, unique_violation, record_not_found, other_error,
}
use pizzaria_api.Validation.{Checked, accept, reject}
use pizzaria_api.World.{
  Context, World, W, Db, settle, settle_unique, query, execute, or_unhandled, utc_now,
}
use pizzaria_api.Requests.{validated}

module _ (ctx : Context) (P : Db ctx → Type 0) where
  abbrev pub OnDb : World ctx → Type 0
  OnDb w = P w.db

  -- A call through which the database keeps `P`.
  abbrev pub KeepsDb : {A : Type 0} → Action (W ctx) A → Type 0
  KeepsDb m = Preserves OnDb m

  pub KeepsDb-settle : {A : Type 0} (r : Reply A) → KeepsDb (settle ctx r)
  KeepsDb-settle (returned a) = record { at = λ w h. h }
  KeepsDb-settle (raised e) = record { at = λ w h. h }

  pub KeepsDb-settle_unique :
      {A : Type 0} (e : DomainError) (r : Reply A) → KeepsDb (settle_unique ctx e r)
  KeepsDb-settle_unique e (returned a) = record { at = λ w h. h }
  KeepsDb-settle_unique e (raised unique_violation) = record { at = λ w h. h }
  KeepsDb-settle_unique e (raised record_not_found) = record { at = λ w h. h }
  KeepsDb-settle_unique e (raised other_error) = record { at = λ w h. h }

  pub KeepsDb-query : {A : Type 0} (f : Db ctx → Reply A) → KeepsDb (query ctx f)
  KeepsDb-query f = record { at = λ w h. (KeepsDb-settle (f w.db)).at w h }

  pub KeepsDb-or_unhandled : {A : Type 0} (found : Option A) → KeepsDb (or_unhandled ctx found)
  KeepsDb-or_unhandled none = record { at = λ w h. h }
  KeepsDb-or_unhandled (some a) = record { at = λ w h. h }

  pub KeepsDb-utc_now : KeepsDb (utc_now ctx)
  KeepsDb-utc_now = record { at = λ w h. h }

  pub KeepsDb-execute :
      {A : Type 0} (f : Db ctx → Reply A × Db ctx)
      → ((db : Db ctx) → P db → P (f db).1)
      → KeepsDb (execute ctx f)
  KeepsDb-execute f k = record { at = λ w h. k w.db h }

  -- A body that the validator accepted, with the equation that says so.
  pub KeepsDb-validated :
      {A B : Type 0} (c : Checked A) (f : A → Action (W ctx) B)
      → ((a : A) → c ≡ accept a → KeepsDb (f a))
      → KeepsDb (validated ctx c >>= f)
  KeepsDb-validated (accept a) f k = k a refl
  KeepsDb-validated (reject m) f k = record { at = λ w h. h }

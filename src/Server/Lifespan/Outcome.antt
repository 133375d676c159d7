-- ===== src/Server/Lifespan/Outcome.antt =====
-- That the lifespan of src/infra/database.py closes what it opened.
use pizzaria_api.Prelude.{◌≡◌, refl, ap, ◌∙◌, List, [], ◌∷◌, ◌++◌, ◌⊎◌, inl, inr, Bool-cases}
use mathlib.Core.List.{append_assoc}
use pizzaria_api.Errors.{unhandled}
use pizzaria_api.Action.{Action, Result, ok, failed, cleaned}
use pizzaria_api.World.{Context}
use pizzaria_api.Prisma.Table.{Reply, returned, raised}
use pizzaria_api.Seed.{find_missing_roles}
use pizzaria_api.Email.{warns_email_disabled}
use pizzaria_api.Server.{Process, ConnectionCall, connected, disconnected, inside, log}
use pizzaria_api.Action.Keeps.{Keeps, then_Keeps}
use pizzaria_api.Server.Lifespan.{
  warn_if_roles_missing, warn_if_email_disabled, run, close, lifespan, warn_missing,
}

module _ (ctx : Context) where
  -- A call after which the calls of the connection are these, if they were before.
  abbrev HasCalls : List ConnectionCall → Process ctx → Type 0
  HasCalls calls p = p.calls ≡ calls

  -- A call that leaves the connection alone.
  abbrev pub LeavesConnection : {A : Type 0} → Action (Process ctx) A → Type 0
  LeavesConnection m = (calls : List ConnectionCall) → Keeps (HasCalls calls) m

  warn_missing-HasCalls :
      (calls : List ConnectionCall) (names : List _)
      → Keeps (HasCalls calls) (warn_missing ctx names)
  unfolding log
  warn_missing-HasCalls calls [] p h = h
  warn_missing-HasCalls calls (name ∷ names) p h = h

  warn_if_email_disabled-HasCalls :
      (calls : List ConnectionCall) → Keeps (HasCalls calls) (warn_if_email_disabled ctx)
  unfolding warn_if_email_disabled log
  warn_if_email_disabled-HasCalls calls p h =
      elim (Bool-cases (warns_email_disabled ctx.settings)) [ inl t ↦ rw t h | inr f ↦ rw f h ]

  run-HasCalls :
      (serving : Action (Process ctx) (Unit {0})) (calls : List ConnectionCall)
      → LeavesConnection serving
      → (on_connect on_disconnect : Reply (Unit {0}))
      → Keeps (HasCalls calls) (run ctx on_connect on_disconnect serving)
  unfolding run log warn_if_roles_missing
  run-HasCalls serving calls leaves c d =
      then_Keeps (HasCalls calls) (warn_if_roles_missing ctx) _
        (then_Keeps (HasCalls calls) (inside ctx (find_missing_roles ctx)) _ (λ p h. h)
          (warn_missing-HasCalls calls))
        (λ _.
          then_Keeps (HasCalls calls) (warn_if_email_disabled ctx) _
            (warn_if_email_disabled-HasCalls calls) (λ _ p h. leaves calls _ h))

  cleaned-calls :
      {A : Type 0} (r : Result A) (s : Result (Unit {0}) × Process ctx)
      → (cleaned r s).1.calls ≡ s.1.calls
  cleaned-calls r (ok _, q) = refl
  cleaned-calls r (failed e, q) = refl

  close-calls :
      (c d : Reply (Unit {0})) (p : Process ctx)
      → (close ctx c d p).1.calls ≡ p.calls ++ disconnected ∷ []
  unfolding close log
  close-calls c (returned _) p = refl
  close-calls c (raised e) p = refl

  -- However the checks of the start, what the server does and the disconnection end, if the
  -- connection was opened it is closed once, last of all; and if it could not be opened the server
  -- does nothing but raise.
  pub lifespan_lem :
      (on_connect on_disconnect : Reply (Unit {0})) (serving : Action (Process ctx) (Unit {0}))
      (p : Process ctx)
      → LeavesConnection serving
      → ((on_connect ≡ returned tt)
          × ((lifespan ctx on_connect on_disconnect serving p).1.calls
              ≡ p.calls ++ connected ∷ disconnected ∷ []))
        ⊎ (lifespan ctx on_connect on_disconnect serving p
            ≡ (failed unhandled, record p { calls = p.calls ++ connected ∷ [] }))
  unfolding lifespan log
  lifespan_lem (returned _) d serving p leaves = inl (
    refl,
    cleaned-calls _ _
        ∙ close-calls (returned tt) d _
        ∙ ap (λ calls. calls ++ disconnected ∷ [])
            (run-HasCalls serving (p.calls ++ connected ∷ []) leaves (returned tt) d _ refl)
        ∙ append_assoc p.calls (connected ∷ []) (disconnected ∷ []),
  )
  lifespan_lem (raised e) d serving p leaves = inr refl

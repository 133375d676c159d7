-- ===== src/Server/App/Outcome.antt =====
-- Which answer leaves the application of src/main.py, and under which id.
use pizzaria_api.Prelude.{
  sym, List, map, all, inl, inr, Bool-cases, Option-cases, ℕ, ◌≡◌, refl, ap, ◌∙◌, Option, none,
  some,
}
use pizzaria_api.Prelude.Dict.{Str, Dict, insert, lookup, lookup-insert, str_eq_refl}
use pizzaria_api.Errors.{
  domain, request_validation, unhandled, generic_exception_handler, validation_exception_handler,
  error_response, encodes_item, clean_item, JsonResponse, ErrorItem,
}
use pizzaria_api.Action.{Action, Result, ok, failed}
use pizzaria_api.World.{Context}
use pizzaria_api.Server.{Process, log_exception}
use pizzaria_api.Server.Middleware.{Request, Response, request_id_header}
use pizzaria_api.Server.Middleware.Outcome.{next_id, opened, dispatch_lem}
use pizzaria_api.Server.App.{sent, serve, or_handled, or_raised, domain_error_handler}

-- What an answer to a validation error has, and what the one has where none could be built.
abbrev pub status_if_told : Option JsonResponse → ℕ
status_if_told none = 500
status_if_told (some r) = 422

abbrev pub id_if_told : Str → Option JsonResponse → Option Str
id_if_told id none = none
id_if_told id (some r) = some id

abbrev status_or_none : Option JsonResponse → ℕ
status_or_none none = 0
status_or_none (some r) = r.status_code

module _ (ctx : Context) where
  abbrev pub status_of : Result Response → ℕ
  status_of (ok response) = response.status_code
  status_of (failed (domain e)) = e.status_code
  status_of (failed (request_validation errors)) =
      status_if_told (validation_exception_handler ctx.platform.str errors)
  status_of (failed unhandled) = 500

  abbrev pub id_of : Str → Result Response → Option Str
  id_of id (ok response) = some id
  id_of id (failed (domain e)) = some id
  id_of id (failed (request_validation errors)) =
      id_if_told id (validation_exception_handler ctx.platform.str errors)
  id_of id (failed unhandled) = none

  lookup-inserted :
      (id : Str) (d : Dict Str) → lookup request_id_header (insert request_id_header id d) ≡ some id
  lookup-inserted id d =
      lookup-insert request_id_header request_id_header id d ∙ rw (str_eq_refl request_id_header)

  handled_answer :
      (perf : ℕ → ℕ) (request : Request) (endpoint : Action (Process ctx) Response)
      (p q : Process ctx) (response : Response)
      → or_handled ctx (endpoint (opened ctx request p)) ≡ (ok response, q)
      → let (answer, after) = serve ctx perf request endpoint p in
        (answer.status_code ≡ response.status_code)
        × (lookup request_id_header answer.headers ≡ some (next_id ctx p))
        × (after.request_id ≡ p.request_id)
  unfolding serve
  handled_answer perf request endpoint p q response e =
      rw (dispatch_lem ctx perf request (λ r. or_handled ctx (endpoint r)) p (ok response) q e)
        (refl, lookup-inserted (next_id ctx p) response.headers, refl)

  unhandled_answer :
      (perf : ℕ → ℕ) (request : Request) (endpoint : Action (Process ctx) Response)
      (p q : Process ctx)
      → or_handled ctx (endpoint (opened ctx request p)) ≡ (failed unhandled, q)
      → let (answer, after) = serve ctx perf request endpoint p in
        (answer.status_code ≡ 500)
        × (lookup request_id_header answer.headers ≡ none)
        × (after.request_id ≡ p.request_id)
  unfolding serve sent generic_exception_handler log_exception lookup
  unhandled_answer perf request endpoint p q e =
      rw (dispatch_lem ctx perf request (λ r. or_handled ctx (endpoint r)) p (failed unhandled) q e)
        (refl, refl, refl)

  answered_422 :
      (errors : List ErrorItem) (r : JsonResponse)
      → validation_exception_handler ctx.platform.str errors ≡ some r
      → r.status_code ≡ 422
  unfolding validation_exception_handler
  answered_422 errors r h =
      elim (Bool-cases (all encodes_item (map (clean_item ctx.platform.str) errors))) [
        | inl told ↦ ap status_or_none (sym (rw told at h))
        | inr lost ↦ cc (rw lost at h)
      ]

  -- Every request is answered: with the status of the response of its endpoint, with the one of the
  -- `DomainError` that it raised, with a 422 for a validation error that JSON can tell, and with a
  -- 500 for another one and for any other exception. The id in the context variable is the one from
  -- before. The answer carries the id that was drawn for the request, except where it is a 500 from
  -- outside the middlewares, which carries no id at all.
  pub serve_lem :
      (perf : ℕ → ℕ) (request : Request) (endpoint : Action (Process ctx) Response)
      (r : Result Response) (p q : Process ctx)
      → endpoint (opened ctx request p) ≡ (r, q)
      → let (answer, after) = serve ctx perf request endpoint p in
        (answer.status_code ≡ status_of r)
        × (lookup request_id_header answer.headers ≡ id_of (next_id ctx p) r)
        × (after.request_id ≡ p.request_id)
  unfolding sent domain_error_handler error_response
  serve_lem perf request endpoint (ok response) p q e =
      handled_answer perf request endpoint p q response (ap (or_handled ctx) e)
  serve_lem perf request endpoint (failed (domain x)) p q e =
      handled_answer perf request endpoint p q _ (ap (or_handled ctx) e)
  serve_lem perf request endpoint (failed (request_validation errors)) p q e =
      elim (Option-cases (validation_exception_handler ctx.platform.str errors)) [
        | inl lost ↦ rw lost (
            unhandled_answer perf request endpoint p q
              (ap (or_handled ctx) e ∙ ap (λ o. or_raised ctx o q) lost))
        | inr (r, shown) ↦
            let (status, id, restored) =
              handled_answer perf request endpoint p q (sent ctx r)
                (ap (or_handled ctx) e ∙ ap (λ o. or_raised ctx o q) shown) in
            rw (status_of, id_of, shown) (status ∙ answered_422 errors r shown, id, restored)
      ]
  serve_lem perf request endpoint (failed unhandled) p q e =
      unhandled_answer perf request endpoint p q (ap (or_handled ctx) e)

-- ===== src/Server/App.antt =====
-- src/main.py: the application as starlette runs what the file registers. The handlers of
-- `DomainError` and `RequestValidationError` run inside the middlewares, and the one of `Exception`
-- outside of all of them.
pub mod Outcome
use pizzaria_api.Prelude.{ℕ, Option, none, some, List, [], ◌∷◌, map}
use pizzaria_api.Prelude.Dict.{Str, Dict}
use pizzaria_api.Text.{Unicode, codes, lower}
use pizzaria_api.Errors.{
  Exception, domain, request_validation, unhandled, DomainError, ErrorItem, JsonResponse,
  error_response, validation_exception_handler, generic_exception_handler,
}
use pizzaria_api.Action.{Action, Result, ok, failed, pure, ◌>>◌}
use pizzaria_api.World.{Context}
use pizzaria_api.Logger.Lines.{error}
use pizzaria_api.Server.{Process, log_exception}
use pizzaria_api.Server.Middleware.{Request, Response, dispatch}

abbrev header_list : Option (Dict Str) → Dict Str
header_list none = []
header_list (some headers) = headers

module _ (ctx : Context) where
  -- What starlette sends for a `JSONResponse`; the headers of the body are left out.
  unfoldable pub sent : JsonResponse → Response
  sent response = record {
    status_code = response.status_code;
    headers = map (λ h. (lower ctx.platform.unicode h.0, h.1)) (header_list response.headers);
  }

  unfoldable pub domain_error_handler : DomainError → Response
  unfolding sent
  domain_error_handler e = sent (error_response e)

  -- What the handler of validation errors returned, or that it raised.
  abbrev pub or_raised : Option JsonResponse → Process ctx → Result Response × Process ctx
  or_raised none p = (failed unhandled, p)
  or_raised (some response) p = (ok (sent response), p)

  -- The handlers inside the middlewares.
  abbrev pub or_handled : Result Response × Process ctx → Result Response × Process ctx
  or_handled (ok response, p) = (ok response, p)
  or_handled (failed (domain e), p) = (ok (domain_error_handler e), p)
  or_handled (failed (request_validation errors), p) =
      or_raised (validation_exception_handler ctx.platform.str errors) p
  or_handled (failed unhandled, p) = (failed unhandled, p)

  -- The handler outside, which logs what nobody took.
  abbrev pub or_generic : Result Response × Process ctx → Response × Process ctx
  or_generic (ok response, p) = (response, p)
  or_generic (failed e, p) = (
    sent generic_exception_handler,
    (log_exception ctx error (codes "unhandled_exception") e p).1,
  )

  -- A request, by what the routed endpoint does with it.
  unfoldable pub serve :
      (ℕ → ℕ) → Request → Action (Process ctx) Response → Process ctx → Response × Process ctx
  unfolding dispatch domain_error_handler
  serve perf request endpoint p =
      or_generic (dispatch ctx perf request (λ q. or_handled (endpoint q)) p)

  -- One request after the other, each with the endpoint that it is routed to.
  unfoldable pub serve_each :
      (ℕ → ℕ) → List (Request × Action (Process ctx) Response) → Action (Process ctx) (Unit {0})
  unfolding serve
  serve_each perf [] p = (ok tt, p)
  serve_each perf ((request, endpoint) ∷ rest) p =
      serve_each perf rest (serve perf request endpoint p).1

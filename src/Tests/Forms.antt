-- ===== src/Tests/Forms.antt =====
-- The validators of src/modules/units/unit_schema.py, the pages of src/shared/types.py and the
-- handlers of src/core/exceptions.py at concrete inputs.
use pizzaria_api.Prelude.{ℕ, ◌≡◌, ◌↔◌, refl, some, [], ◌∷◌, arith, All, map, all, true, here, there}
use pizzaria_api.Prelude.Dict.{Str, Dict, str_eq, lookup}
use pizzaria_api.Text.{codes}
use pizzaria_api.Validation.{accept, reject}
use pizzaria_api.Errors.{
  Value, ErrorItem, JsonResponse, handle, request_validation, unhandled, exception, number, text,
  bytes, domain, fields, encodes, encodes_item, too_many_requests_error,
}
use pizzaria_api.Errors.Handlers.{
  IsTellable, handle_untellable, items_of, validation_exception_handler_lem,
  too_many_requests_error_lem,
}
use pizzaria_api.Text.Decimal.{IsDigit, value_after}
use pizzaria_api.Pagination.{total_pages_of}
use pizzaria_api.Pagination.Laws.{pages_from, pages_from_all}
use pizzaria_api.Units.Cnpj.{check_digit, weighted_sum, validate_cnpj, normalize_and_validate_cnpj}
use pizzaria_api.Units.Cnpj.Laws.{IsCnpj, validate_cnpj_iff, normalize_and_validate_cnpj_canonical}
use pizzaria_api.Units.Cnpj.Punctuation.{punctuate, normalize_and_validate_cnpj-punctuate}
use pizzaria_api.Units.Schema.{check_zip}
use pizzaria_api.Text.{remove_char}
use pizzaria_api.Validation.{bounded}
use pizzaria_api.Tests.Setup.{plain_unicode}

abbrev cnpj : Str
cnpj = codes "12ABC34501DE35"

validate_cnpj-cnpj : validate_cnpj cnpj ≡ accept cnpj
unfolding validate_cnpj str_eq weighted_sum check_digit
validate_cnpj-cnpj = refl

-- A digit off by one.
validate_cnpj-wrong : validate_cnpj (codes "12ABC34501DE36") ≡ reject (codes "Invalid CNPJ")
unfolding validate_cnpj str_eq weighted_sum check_digit
validate_cnpj-wrong = refl

cnpj-IsCnpj : IsCnpj cnpj
cnpj-IsCnpj = (validate_cnpj_iff cnpj).0 validate_cnpj-cnpj

-- A text of hyphens passes the lower bound on the length, and nothing is left of it.
check_zip-hyphens : check_zip (codes "---") ≡ accept []
unfolding check_zip bounded remove_char
check_zip-hyphens = refl

validate_cnpj_iff_example : (validate_cnpj cnpj ≡ accept cnpj) ↔ IsCnpj cnpj
validate_cnpj_iff_example = validate_cnpj_iff cnpj

normalize_and_validate_cnpj_canonical_example :
    IsCnpj cnpj × (normalize_and_validate_cnpj plain_unicode cnpj ≡ accept cnpj)
normalize_and_validate_cnpj_canonical_example =
    normalize_and_validate_cnpj_canonical plain_unicode (punctuate cnpj) cnpj
      (normalize_and_validate_cnpj-punctuate plain_unicode cnpj cnpj-IsCnpj)

normalize_and_validate_cnpj-punctuate_example :
    normalize_and_validate_cnpj plain_unicode (punctuate cnpj) ≡ accept cnpj
normalize_and_validate_cnpj-punctuate_example =
    normalize_and_validate_cnpj-punctuate plain_unicode cnpj cnpj-IsCnpj

pages_from_all_example :
    pages_from {A = ℕ} 2 (1 ∷ 2 ∷ 3 ∷ []) 1 (total_pages_of 2 3) ≡ (1 ∷ 2 ∷ 3 ∷ [])
pages_from_all_example = pages_from_all 2 (1 ∷ 2 ∷ 3 ∷ []) (omega arith)

-- `str` of an exception.
abbrev str : Value → Str
str (exception message) = message
str _ = []

abbrev bad : ErrorItem
bad = record {
  type = codes "value_error";
  loc = text (codes "body") ∷ [];
  msg = codes "bad";
  input = text (codes "x");
  ctx = some ((codes "error", exception (codes "bad")) ∷ []);
}

bad-IsTellable : IsTellable str bad
unfolding encodes lookup str_eq
bad-IsTellable = record {
  type = refl;
  loc = refl;
  msg = refl;
  input = refl;
  ctx = ((refl, tt), ((refl, refl), tt));
}

validation_exception_handler_lem_example :
    ((handle str (request_validation (bad ∷ []))).status_code ≡ 422)
    × (map (λ e. e.msg) (items_of (handle str (request_validation (bad ∷ [])))) ≡ codes "bad" ∷ [])
    × (map (λ e. e.input) (items_of (handle str (request_validation (bad ∷ []))))
        ≡ text (codes "x") ∷ [])
    × (all encodes_item (items_of (handle str (request_validation (bad ∷ [])))) ≡ true)
validation_exception_handler_lem_example =
    validation_exception_handler_lem str (bad ∷ []) (bad-IsTellable, tt)

-- The body of a request that does not say it is JSON reaches the validators as bytes.
abbrev raw : ErrorItem
raw = record bad { input = bytes (codes "{}") }

handle_untellable_example : handle str (request_validation (bad ∷ raw ∷ [])) ≡ handle str unhandled
unfolding encodes
handle_untellable_example = handle_untellable str (bad ∷ raw ∷ []) raw (there here) refl

abbrev blocked : JsonResponse
blocked = handle str (domain (too_many_requests_error 61))

too_many_requests_error_lem_example :
    (blocked.status_code ≡ 429)
    × ((text : Str) × (value : Dict Str) × (blocked.headers ≡ some value)
        × (lookup (codes "Retry-After") value ≡ some text)
        × All IsDigit text
        × (value_after 0 text ≡ 61))
    × (blocked.error.details ≡ fields ((codes "retry_after_seconds", number 61) ∷ []))
too_many_requests_error_lem_example = too_many_requests_error_lem str 61

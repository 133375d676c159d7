-- ===== src/Errors.antt =====
-- src/core/exceptions.py: the exceptions that the program raises and the answers that the handlers
-- registered in src/main.py give for them.
pub mod Handlers
use pizzaria_api.Prelude.{
  ℕ, Bool, true, false, not, ◌&&◌, Option, none, some, List, [], ◌∷◌, map, all, leb, if◌then◌else◌,
}
use pizzaria_api.Prelude.Dict.{Str, Dict, insert, lookup}
use pizzaria_api.Text.{codes, decimal}

-- A Python object in the details of an error. `real` is a finite number that is no natural one, by
-- its digits; an object whose class the JSON encoder does not know is `exception`, by its `str`.
mutual
  pub data Value : Type 0 where
    null : Value
    boolean : Bool → Value
    text : Str → Value
    number : ℕ → Value
    real : Str → Value
    not_finite : Str → Value
    bytes : Str → Value
    exception : Str → Value
    array : Values → Value
    mapping : Members → Value

  pub data Values : Type 0 where
    no_values : Values
    value : Value → Values → Values

  pub data Members : Type 0 where
    no_members : Members
    member : Str → Value → Members → Members

-- An item of `RequestValidationError.errors()`; `input` is what the client sent.
pub record ErrorItem : Type 0 where
  pub type : Str
  pub loc : List Value
  pub msg : Str
  pub input : Value
  pub ctx : Option (Dict Value)

pub data Details : Type 0 where
  no_details : Details
  fields : Dict Value → Details
  items : List ErrorItem → Details

pub record DomainError : Type 0 where
  pub message : Str
  pub code : Str
  pub status_code : ℕ
  pub details : Details
  pub headers : Option (Dict Str)

-- `super().__init__(message=…, code=…, status_code=…)` with the other arguments left out
abbrev plain_error : Str → Str → ℕ → DomainError
plain_error message code status_code = record {
  message = message;
  code = code;
  status_code = status_code;
  details = no_details;
  headers = none;
}

unfoldable pub not_found_error : Str → DomainError
not_found_error message = plain_error message (codes "NOT_FOUND") 404

unfoldable pub bad_request_error : Str → DomainError
bad_request_error message = plain_error message (codes "BAD_REQUEST") 400

unfoldable pub conflict_error : Str → DomainError
conflict_error message = plain_error message (codes "CONFLICT") 409

unfoldable pub business_validation_error : Str → Details → DomainError
business_validation_error message details = record {
  message = message;
  code = codes "VALIDATION_ERROR";
  status_code = 422;
  details = details;
  headers = none;
}

unfoldable pub unauthorized_error : Str → DomainError
unauthorized_error message = plain_error message (codes "UNAUTHORIZED") 401

unfoldable pub forbidden_error : Str → DomainError
forbidden_error message = plain_error message (codes "FORBIDDEN") 403

unfoldable pub too_many_requests_error : ℕ → DomainError
too_many_requests_error retry_after_seconds = record {
  message = codes "Too many requests";
  code = codes "TOO_MANY_REQUESTS";
  status_code = 429;
  details = fields ((codes "retry_after_seconds", number retry_after_seconds) ∷ []);
  headers = some ((codes "Retry-After", decimal retry_after_seconds) ∷ []);
}

unfoldable pub service_unavailable_error : Str → DomainError
service_unavailable_error message = plain_error message (codes "SERVICE_UNAVAILABLE") 503

unfoldable pub feature_unavailable_error : Str → DomainError
feature_unavailable_error message = plain_error message (codes "FEATURE_UNAVAILABLE") 503

unfoldable pub internal_error : DomainError
internal_error = plain_error (codes "Internal error") (codes "INTERNAL_ERROR") 500

-- `unhandled` is any exception that is neither a `DomainError` nor a validation error.
pub data Exception : Type 0 where
  domain : DomainError → Exception
  request_validation : List ErrorItem → Exception
  unhandled : Exception

pub record ErrorDetail : Type 0 where
  pub code : Str
  pub message : Str
  pub details : Details

pub record JsonResponse : Type 0 where
  pub status_code : ℕ
  pub error : ErrorDetail
  pub headers : Option (Dict Str)

unfoldable pub error_response : DomainError → JsonResponse
error_response e = record {
  status_code = e.status_code;
  error = record { code = e.code; message = e.message; details = e.details };
  headers = e.headers;
}

-- What `json.dumps(…, allow_nan=False).encode("utf-8")` of starlette takes: a text without a
-- surrogate, a finite number, and a list or a dict of what it takes; else it raises.
abbrev pub encodes_text : Str → Bool
encodes_text s = all (λ c. not (leb 55296 c && leb c 57343)) s

unfoldable mutual
  pub encodes : Value → Bool
  encodes null = true
  encodes (boolean b) = true
  encodes (text s) = encodes_text s
  encodes (number n) = true
  encodes (real digits) = true
  encodes (not_finite digits) = false
  encodes (bytes b) = false
  encodes (exception s) = false
  encodes (array vs) = encodes_each vs
  encodes (mapping ms) = encodes_members ms

  pub encodes_each : Values → Bool
  encodes_each no_values = true
  encodes_each (value v vs) = encodes v && encodes_each vs

  pub encodes_members : Members → Bool
  encodes_members no_members = true
  encodes_members (member k v ms) = encodes_text k && (encodes v && encodes_members ms)

abbrev pub encodes_entry : Str × Value → Bool
encodes_entry (k, v) = encodes_text k && encodes v

abbrev pub encodes_ctx : Option (Dict Value) → Bool
encodes_ctx none = true
encodes_ctx (some ctx) = all encodes_entry ctx

abbrev pub encodes_item : ErrorItem → Bool
encodes_item item =
    encodes_text item.type
    && (all encodes item.loc
        && (encodes_text item.msg && (encodes item.input && encodes_ctx item.ctx)))

-- Python's `str` is a parameter.
module _ (str : Value → Str) where
  -- One round of the loop over `exc.errors()`.
  abbrev with_text_error : ErrorItem → Dict Value → Option Value → ErrorItem
  with_text_error item ctx none = item
  with_text_error item ctx (some e) = record item {
    ctx = some (insert (codes "error") (text (str e)) ctx);
  }

  abbrev pub clean_ctx : ErrorItem → Option (Dict Value) → ErrorItem
  clean_ctx item none = item
  clean_ctx item (some ctx) = with_text_error item ctx (lookup (codes "error") ctx)

  unfoldable pub clean_item : ErrorItem → ErrorItem
  clean_item item = clean_ctx item item.ctx

  -- `none` where `JSONResponse` raises, since it cannot encode an item.
  unfoldable pub validation_exception_handler : List ErrorItem → Option JsonResponse
  unfolding clean_item encodes
  validation_exception_handler errors =
      if all encodes_item (map clean_item errors)
      then some (record {
        status_code = 422;
        error = record {
          code = codes "VALIDATION_ERROR";
          message = codes "Validation failed";
          details = items (map clean_item errors);
        };
        headers = none;
      })
      else none

unfoldable pub generic_exception_handler : JsonResponse
generic_exception_handler = record {
  status_code = 500;
  error = record {
    code = codes "INTERNAL_SERVER_ERROR";
    message = codes "Internal server error";
    details = no_details;
  };
  headers = none;
}

-- What the handler of `Exception` answers where another one raised.
abbrev pub or_generic_response : Option JsonResponse → JsonResponse
or_generic_response none = generic_exception_handler
or_generic_response (some response) = response

-- The three handlers as src/main.py registers them.
unfoldable pub handle : (Value → Str) → Exception → JsonResponse
unfolding error_response validation_exception_handler generic_exception_handler
handle str (domain e) = error_response e
handle str (request_validation errors) =
    or_generic_response (validation_exception_handler str errors)
handle str unhandled = generic_exception_handler

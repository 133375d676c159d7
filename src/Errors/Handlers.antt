-- ===== src/Errors/Handlers.antt =====
-- What the handlers of src/core/exceptions.py answer.
use pizzaria_api.Prelude.{
  ◌⊎◌, ℕ, ◌≡◌, refl, Bool, true, false, ◌&&◌, Option, none, some, List, [], ◌∷◌, map, all, All, In,
  here, there, inl, inr, Option-cases, Bool-cases, arith,
}
use pizzaria_api.Prelude.Dict.{Str, Dict, str_eq, lookup, insert, HasDistinctKeys, str_eq_sound}
use mathlib.Core.Path.{subst}
use pizzaria_api.Text.{codes, decimal}
use pizzaria_api.Text.Decimal.{IsDigit, value_after, decimal_lem}
use pizzaria_api.Errors.{
  Value, ErrorItem, JsonResponse, handle, clean_item, items, no_details, request_validation,
  validation_exception_handler, fields, domain, too_many_requests_error, error_response, unhandled,
  encodes, encodes_text, encodes_entry, encodes_ctx, encodes_item,
}

-- The items of a 422 in the answer.
abbrev pub items_of : JsonResponse → List ErrorItem
items_of r = elim r.error.details [ no_details ↦ [] | fields _ ↦ [] | items es ↦ es ]

module _ (str : Value → Str) where
  -- Under the key `error`, the text of the object can be encoded, and elsewhere the object.
  abbrev pub EncodesUnder : Bool → Value → Type 0
  EncodesUnder true v = encodes_text (str v) ≡ true
  EncodesUnder false v = encodes v ≡ true

  abbrev pub EncodesEntry : Str × Value → Type 0
  EncodesEntry (k, v) = (encodes_text k ≡ true) × EncodesUnder (str_eq k (codes "error")) v

  abbrev pub EncodesCtx : Option (Dict Value) → Type 0
  EncodesCtx none = Unit
  EncodesCtx (some ctx) = HasDistinctKeys ctx × All EncodesEntry ctx

  -- An item of which JSON can tell everything, the object under `ctx["error"]` by its text.
  pub record IsTellable (item : ErrorItem) : Type 0 where
    pub type : encodes_text item.type ≡ true
    pub loc : all encodes item.loc ≡ true
    pub msg : encodes_text item.msg ≡ true
    pub input : encodes item.input ≡ true
    pub ctx : EncodesCtx item.ctx

  both : {a b : Bool} → a ≡ true → b ≡ true → (a && b) ≡ true
  both p q = rw (p, q) refl

  entries_without :
      (d : Dict Value)
      → lookup (codes "error") d ≡ none
      → All EncodesEntry d
      → all encodes_entry d ≡ true
  unfolding lookup
  entries_without [] h a = refl
  entries_without ((k, v) ∷ d) h ((p, q), a) = elim (Bool-cases (str_eq k (codes "error"))) [
    | inl same ↦ cc (rw same at h)
    | inr other ↦ both (both p (rw other at q)) (entries_without d (rw other at h) a)
  ]

  entries_with :
      (d : Dict Value) (e : Value)
      → HasDistinctKeys d
      → lookup (codes "error") d ≡ some e
      → All EncodesEntry d
      → all encodes_entry (insert (codes "error") (Value.text (str e)) d) ≡ true
  unfolding lookup insert encodes
  entries_with [] e distinct h a = cc
  entries_with ((k, v) ∷ d) e (fresh, distinct) h ((p, q), a) =
      elim (Bool-cases (str_eq k (codes "error"))) [
        | inl same ↦
            let is_e : v ≡ e = cc (rw same at h) in
            let told : encodes_text (str e) ≡ true = rw is_e at (rw same at q) in
            rw same (
              both (both refl told)
                (entries_without d (rw (str_eq_sound k (codes "error") same) at fresh) a))
        | inr other ↦
            rw other (both (both p (rw other at q)) (entries_with d e distinct (rw other at h) a))
      ]

  clean_item-encodes :
      (item : ErrorItem) → IsTellable item → encodes_item (clean_item str item) ≡ true
  unfolding clean_item
  clean_item-encodes item t = elim (Option-cases item.ctx) [
    | inl absent ↦ rw absent (both t.type (both t.loc (both t.msg (both t.input refl))))
    | inr (d, e) ↦
        let (distinct, entries) = subst EncodesCtx e t.ctx in
        elim (Option-cases (lookup (codes "error") d)) [
          | inl missing ↦
              rw (e, missing)
                (both t.type
                  (both t.loc (both t.msg (both t.input (entries_without d missing entries)))))
          | inr (v, there_) ↦
              rw (e, there_)
                (both t.type (
                  both t.loc
                    (both t.msg (both t.input (entries_with d v distinct there_ entries)))))
        ]
  ]

  all_encode :
      (errors : List ErrorItem)
      → All IsTellable errors
      → all encodes_item (map (clean_item str) errors) ≡ true
  all_encode [] h = refl
  all_encode (item ∷ errors) (t, h) = both (clean_item-encodes item t) (all_encode errors h)

  clean_item-input :
      (item : ErrorItem)
      → ((clean_item str item).msg ≡ item.msg) × ((clean_item str item).input ≡ item.input)
  unfolding clean_item
  clean_item-input item = elim (Option-cases item.ctx) [
    | inl absent ↦ rw absent (refl, refl)
    | inr (ctx, e) ↦ elim (Option-cases (lookup (codes "error") ctx)) [
      | inl missing ↦ rw (e, missing) (refl, refl)
      | inr (value, f) ↦ rw (e, f) (refl, refl)
    ]
  ]

  map-msg :
      (errors : List ErrorItem)
      → (map (λ e. e.msg) (map (clean_item str) errors) ≡ map (λ e. e.msg) errors)
        × (map (λ e. e.input) (map (clean_item str) errors) ≡ map (λ e. e.input) errors)
  map-msg [] = (refl, refl)
  map-msg (item ∷ errors) =
      let (m, i) = clean_item-input item in
      let (ms, is) = map-msg errors in (rw (m, ms) refl, rw (i, is) refl)

  -- Where JSON can tell every item, the object under `ctx["error"]` by its text, the answer to a
  -- validation error is a 422 with one item for each error, with its message and input, in order,
  -- and JSON can encode all of them.
  pub validation_exception_handler_lem :
      (errors : List ErrorItem)
      → All IsTellable errors
      → let response = handle str (request_validation errors) in
        (response.status_code ≡ 422)
        × (map (λ e. e.msg) (items_of response) ≡ map (λ e. e.msg) errors)
        × (map (λ e. e.input) (items_of response) ≡ map (λ e. e.input) errors)
        × (all encodes_item (items_of response) ≡ true)
  unfolding handle validation_exception_handler
  validation_exception_handler_lem errors h =
      let shown = all_encode errors h in
      let (msgs, inputs) = map-msg errors in rw shown (refl, msgs, inputs, shown)

  fourth_false : (a b c d e : Bool) → d ≡ false → (a && (b && (c && (d && e)))) ≡ false
  fourth_false a b c d e h = ground arith

  one_false : (a b : Bool) → (a ≡ false) ⊎ (b ≡ false) → (a && b) ≡ false
  one_false a b h = ground arith

  item_untellable : (x : ErrorItem) → encodes x.input ≡ false → encodes_item x ≡ false
  item_untellable x h =
      fourth_false (encodes_text x.type) (all encodes x.loc) (encodes_text x.msg) (encodes x.input)
        (encodes_ctx x.ctx) h

  untellable :
      (errors : List ErrorItem) (item : ErrorItem)
      → In item errors
      → encodes item.input ≡ false
      → all encodes_item (map (clean_item str) errors) ≡ false
  untellable [] item m h = elim m [ ]
  untellable (x ∷ errors) _ here h =
      one_false (encodes_item (clean_item str x)) (all encodes_item (map (clean_item str) errors))
        (inl (item_untellable (clean_item str x) (rw (clean_item-input x).1 h)))
  untellable (x ∷ errors) item (there m) h =
      one_false (encodes_item (clean_item str x)) (all encodes_item (map (clean_item str) errors))
        (inr (untellable errors item m h))

  -- Where the client sent something that JSON cannot tell back, such as bytes in place of a body,
  -- the answer to its validation error is the 500 of an unhandled exception.
  pub handle_untellable :
      (errors : List ErrorItem) (item : ErrorItem)
      → In item errors
      → encodes item.input ≡ false
      → handle str (request_validation errors) ≡ handle str unhandled
  unfolding handle validation_exception_handler
  handle_untellable errors item m h = rw (untellable errors item m h) refl

-- The answer to a caller who must wait is a 429 whose header `Retry-After` is a text of digits that
-- reads as the wait, the same number of seconds that stands in the details of the body.
pub too_many_requests_error_lem :
    (str : Value → Str) (wait : ℕ)
    → let response = handle str (domain (too_many_requests_error wait)) in
      (response.status_code ≡ 429)
      × ((text : Str) × (value : Dict Str) × (response.headers ≡ some value)
          × (lookup (codes "Retry-After") value ≡ some text)
          × All IsDigit text
          × (value_after 0 text ≡ wait))
      × (response.error.details ≡ fields ((codes "retry_after_seconds", Value.number wait) ∷ []))
unfolding handle error_response too_many_requests_error lookup str_eq
too_many_requests_error_lem str wait =
    let (digits, worth) = decimal_lem wait in
    (refl, (decimal wait, _, refl, refl, digits, worth), refl)

-- ===== src/Logger.antt =====
-- src/core/logger.py: what is left of the fields that a log record binds.
pub mod Redaction
pub mod Lines
use pizzaria_api.Prelude.{
  ℕ, Bool, true, false, ◌||◌, Option, none, some, List, [], ◌∷◌, map, if◌then◌else◌,
}
use pizzaria_api.Prelude.Dict.{Str, contains, str_eq}
use pizzaria_api.Text.{Unicode, codes, lower}

-- `SENSITIVE_KEYS`
abbrev pub sensitive_keys : List Str
sensitive_keys = map codes (
    "password" ∷ "passwd" ∷ "token" ∷ "access_token" ∷ "refresh_token" ∷ "authorization" ∷ "api_key"
    ∷ "secret" ∷ "cpf" ∷ "cnpj" ∷ "rg" ∷ "card" ∷ "card_number" ∷ "cvv" ∷ "ccv" ∷ "pan" ∷ "email"
    ∷ "phone" ∷ "telefone" ∷ "address" ∷ "endereco" ∷ [])

abbrev pub redacted : Str
redacted = codes "***"

-- A key of a mapping: a text, or something else.
pub data Key : Type 0 where
  text : Str → Key
  other : ℕ → Key

-- A value of a log record: a mapping, a list, a tuple, or any other value, told by its text.
mutual
  pub data LogValue : Type 0 where
    mapping : Entries → LogValue
    list : Items → LogValue
    tuple : Items → LogValue
    scalar : Str → LogValue

  pub data Entries : Type 0 where
    no_entries : Entries
    entry : Key → LogValue → Entries → Entries

  pub data Items : Type 0 where
    no_items : Items
    item : LogValue → Items → Items

module _ (u : Unicode) where
  -- `isinstance(k, str) and k.lower() in SENSITIVE_KEYS`
  unfoldable pub is_sensitive : Key → Bool
  is_sensitive (text k) = contains (lower u k) sensitive_keys
  is_sensitive (other n) = false

  -- `_redact`
  unfoldable mutual
    pub redact : LogValue → LogValue
    redact (mapping es) = mapping (redact_entries es)
    redact (list xs) = list (redact_items xs)
    redact (tuple xs) = tuple (redact_items xs)
    redact (scalar s) = scalar s

    pub redact_entries : Entries → Entries
    redact_entries no_entries = no_entries
    redact_entries (entry k v es) =
        let inner = redact v in
        entry k (if is_sensitive k then scalar redacted else inner) (redact_entries es)

    pub redact_items : Items → Items
    redact_items no_items = no_items
    redact_items (item v xs) = item (redact v) (redact_items xs)

abbrev pub is_text : Str → Key → Bool
is_text s (text k) = str_eq k s
is_text s (other n) = false

-- `key in extra`
unfoldable pub has_key : Str → Entries → Bool
has_key s no_entries = false
has_key s (entry k v es) = is_text s k || has_key s es

unfoldable pub append_entry : Key → LogValue → Entries → Entries
append_entry k v no_entries = entry k v no_entries
append_entry k v (entry j w es) = entry j w (append_entry k v es)

-- `extra["request_id"] = request_id`, unless it is there
abbrev with_request_id : Option Str → Entries → Entries
with_request_id none es = es
with_request_id (some id) es =
    if has_key (codes "request_id") es
    then es
    else append_entry (text (codes "request_id")) (scalar id) es

-- `_patcher`, on a record whose `extra` is a dict, with the id of the request that is served
unfoldable pub patch : Unicode → Option Str → Entries → Entries
unfolding has_key append_entry
patch u request_id extra = with_request_id request_id (redact_entries u extra)

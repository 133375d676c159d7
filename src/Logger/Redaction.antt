-- ===== src/Logger/Redaction.antt =====
-- What `_redact` of src/core/logger.py hides.
use pizzaria_api.Prelude.{◌≡◌, true, false, Option, none, some, if◌then◌else◌, Bool-cases, inl, inr}
use pizzaria_api.Prelude.Dict.{Str}
use pizzaria_api.Text.{Unicode, codes}
use pizzaria_api.Logger.{
  Key, text, LogValue, mapping, list, tuple, scalar, Entries, no_entries, entry, Items, no_items,
  item, is_sensitive, redacted, redact, redact_entries, redact_items, patch, append_entry, has_key,
}

module _ (u : Unicode) where
  -- What stands under this key is the mark, if the key is sensitive.
  abbrev pub Hidden : Key → LogValue → Type 0
  Hidden k v = is_sensitive u k ≡ true → v ≡ scalar redacted

  -- At every depth, what stands under a sensitive key is the mark.
  unfoldable mutual
    pub IsRedacted : LogValue → Type 0
    IsRedacted (mapping es) = AllRedacted es
    IsRedacted (list xs) = EachRedacted xs
    IsRedacted (tuple xs) = EachRedacted xs
    IsRedacted (scalar s) = Unit

    pub AllRedacted : Entries → Type 0
    AllRedacted no_entries = Unit
    AllRedacted (entry k v es) = Hidden k v × IsRedacted v × AllRedacted es

    pub EachRedacted : Items → Type 0
    EachRedacted no_items = Unit
    EachRedacted (item v xs) = IsRedacted v × EachRedacted xs

  masked-Hidden :
      (k : Key) (v : LogValue) → Hidden k (if is_sensitive u k then scalar redacted else v)
  masked-Hidden k v h = rw h

  masked-IsRedacted :
      (k : Key) (v : LogValue)
      → IsRedacted v
      → IsRedacted (if is_sensitive u k then scalar redacted else v)
  unfolding IsRedacted
  masked-IsRedacted k v r = elim (Bool-cases (is_sensitive u k)) [
    | inl t ↦ rw t tt
    | inr t ↦ rw t r
  ]

  mutual
    unfolding redact redact_entries redact_items IsRedacted AllRedacted EachRedacted

    redact-IsRedacted : (v : LogValue) → IsRedacted (redact u v)
    redact-IsRedacted (mapping es) = redact_entries-AllRedacted es
    redact-IsRedacted (list xs) = redact_items-EachRedacted xs
    redact-IsRedacted (tuple xs) = redact_items-EachRedacted xs
    redact-IsRedacted (scalar s) = tt

    redact_entries-AllRedacted : (es : Entries) → AllRedacted (redact_entries u es)
    redact_entries-AllRedacted no_entries = tt
    redact_entries-AllRedacted (entry k v es) = (
      masked-Hidden k (redact u v),
      masked-IsRedacted k (redact u v) (redact-IsRedacted v),
      redact_entries-AllRedacted es,
    )

    redact_items-EachRedacted : (xs : Items) → EachRedacted (redact_items u xs)
    redact_items-EachRedacted no_items = tt
    redact_items-EachRedacted (item v xs) = (redact-IsRedacted v, redact_items-EachRedacted xs)

  appended-AllRedacted :
      (k : Key) (v : LogValue) (es : Entries)
      → AllRedacted es
      → Hidden k v
      → IsRedacted v
      → AllRedacted (append_entry k v es)
  unfolding append_entry AllRedacted
  appended-AllRedacted k v no_entries r hid ok_ = (hid, ok_, tt)
  appended-AllRedacted k v (entry j w es) (a, b, r) hid ok_ =
      (a, b, appended-AllRedacted k v es r hid ok_)

  -- Whatever a call binds, in the record that is written every sensitive key, at every depth of
  -- mappings, lists and tuples, has the mark for its value; the id of the request does not break
  -- this, if the Unicode tables leave its key alone.
  pub patch-AllRedacted :
      (request_id : Option Str) (extra : Entries)
      → is_sensitive u (text (codes "request_id")) ≡ false
      → AllRedacted (patch u request_id extra)
  unfolding patch IsRedacted
  patch-AllRedacted none extra h = redact_entries-AllRedacted extra
  patch-AllRedacted (some id) extra h =
      elim (Bool-cases (has_key (codes "request_id") (redact_entries u extra))) [
        | inl present ↦ rw present (redact_entries-AllRedacted extra)
        | inr absent ↦ rw absent (
            appended-AllRedacted (text (codes "request_id")) (scalar id) (redact_entries u extra)
              (redact_entries-AllRedacted extra) (λ s. cc) tt)
      ]

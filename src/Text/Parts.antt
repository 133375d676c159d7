-- ===== src/Text/Parts.antt =====
-- A text that stands in another, such as the token in the message of
-- src/infra/email/email_service.py.
use mathlib.Core.List.{append_assoc}
use pizzaria_api.Prelude.{◌≡◌, ap, sym, ◌∙◌, ◌++◌}
use pizzaria_api.Prelude.Dict.{Str}

-- A text stands in another.
abbrev pub Contains : Str → Str → Type 0
Contains part whole = (before : Str) × (after : Str) × (whole ≡ before ++ (part ++ after))

pub Contains-append : (part whole post : Str) → Contains part whole → Contains part (whole ++ post)
Contains-append part whole post (before, after, e) = (
  before,
  after ++ post,
  ap (λ s. s ++ post) e
      ∙ append_assoc before (part ++ after) post
      ∙ ap (λ s. before ++ s) (append_assoc part after post),
)

pub append-Contains : (pre part whole : Str) → Contains part whole → Contains part (pre ++ whole)
append-Contains pre part whole (before, after, e) =
    (pre ++ before, after, ap (λ s. pre ++ s) e ∙ sym (append_assoc pre before (part ++ after)))

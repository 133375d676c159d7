-- ===== src/Tests/Redemption.antt =====
-- Two resets with one token on the database of `Setup`.
use pizzaria_api.Prelude.{ℕ, ◌≡◌, refl, some, List, [], ◌∷◌, true, In, here, there}
use pizzaria_api.Prelude.Dict.{Str, str_eq}
use pizzaria_api.Text.{codes}
use pizzaria_api.Action.{ok}
use pizzaria_api.World.{World}
use pizzaria_api.Prisma.Memory.{memory_table, find}
use pizzaria_api.Prisma.Memory.Tables.{
  Tables, users_beside_tokens-Laws, tokens-Laws, transaction_commits,
}
use pizzaria_api.Prisma.Rows.{UserRow, TokenRow}
use pizzaria_api.Security.{hash_reset_token, hash_password}
use pizzaria_api.Security.Guards.{Refuses}
use pizzaria_api.Users.Repository.{get_by_id}
use pizzaria_api.Auth.Tokens
use pizzaria_api.Auth.Tokens.{get_by_token_hash}
use pizzaria_api.Auth.Schema.{ResetPasswordDto}
use pizzaria_api.Auth.Dependencies.{get_auth_service}
use pizzaria_api.Auth.Service.{reset_password}
use pizzaria_api.Auth.Service.Marks.{IsIndexed}
use pizzaria_api.Auth.Service.Redemption.{reset_password_once}
use pizzaria_api.Tests.Setup.{process, start, fresh_token, tables}

abbrev users : Tables → List UserRow
users db = db.users

abbrev tokens : Tables → List TokenRow
tokens db = db.tokens

abbrev rest : Tables → Tables
rest db = record db { tokens = [] }

abbrev hash : Str
hash = 35 ∷ codes "new"

abbrev first : ResetPasswordDto
first = record { token = codes "new"; new_password = codes "quattro formaggi" }

abbrev second : ResetPasswordDto
second = record { token = codes "new"; new_password = codes "capricciosa" }

abbrev reset : World process
reset = (reset_password process (get_auth_service process) first start).1

resets : reset_password process (get_auth_service process) first start ≡ (ok tt, reset)
unfolding reset_password get_by_token_hash hash_reset_token hash_password get_by_id
    Tokens.reset_password memory_table find str_eq
resets = refl

abbrev spent_token : TokenRow
spent_token = record fresh_token { used_at = some 2 }

finds_spent :
    get_by_token_hash process (hash_reset_token process (codes "new")) reset
    ≡ (ok (some spent_token), reset)
unfolding reset_password get_by_token_hash hash_reset_token hash_password get_by_id
    Tokens.reset_password memory_table find str_eq
finds_spent = refl

only_fresh :
    (token : TokenRow)
    → In token (tokens tables)
    → str_eq token.token_hash hash ≡ true
    → token.id ≡ 5 ∷ []
unfolding str_eq
only_fresh token here e = cc
only_fresh token (there here) e = refl
only_fresh token (there (there m)) e = elim m [ ]

uuid_of :
    (token : TokenRow) (id : ℕ)
    → In token (tokens tables)
    → process.platform.parse_uuid token.id ≡ some id
    → token.id ≡ id ∷ []
uuid_of token id here e = cc
uuid_of token id (there here) e = cc
uuid_of token id (there (there m)) e = elim m [ ]

tables-IsIndexed :
    IsIndexed process users tokens rest users_beside_tokens-Laws tokens-Laws
      (hash_reset_token process (codes "new"))
      tables
unfolding hash_reset_token str_eq
tables-IsIndexed = record {
  unique = λ token m e. ((λ f. cc), ((λ f. rw (only_fresh token m e)), tt));
  canonical = uuid_of;
}

reset_password_once_example :
    Refuses process 400 reset (reset_password process (get_auth_service process) second reset)
reset_password_once_example =
    reset_password_once process users tokens rest users_beside_tokens-Laws tokens-Laws
      transaction_commits first second start reset reset (some spent_token) tables-IsIndexed resets
      refl refl finds_spent

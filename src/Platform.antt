-- ===== src/Platform.antt =====
-- Code outside the repository that the program calls: the `uuid` module, email-validator (behind
-- pydantic's `EmailStr`), pwdlib, `hashlib`, PyJWT. They are parameters of the model; what the
-- theorems rely on is `Laws`.
use pizzaria_api.Prelude.{ℕ, ◌+◌, ◌≡◌, ◌≤◌, Bool, true, Option, some}
use pizzaria_api.Prelude.Dict.{Str, Dict}
use pizzaria_api.Errors.{Value, ErrorItem}
use pizzaria_api.Text.{Unicode}

-- What `payload.get(key)` finds in a token's claims: a text, or something else.
pub data Claim : Type 0 where
  text : Str → Claim
  other : Claim

-- The claims of a token, and the instant under `exp`, in microseconds; the token holds it in whole
-- seconds, so it may expire up to a second sooner.
pub record Payload : Type 0 where
  pub claims : Dict Claim
  pub exp : ℕ

pub record Platform : Type 0 where
  pub unicode : Unicode
  -- `str(uuid)` and `UUID(text)`, where `none` is its `ValueError`
  pub uuid_text : ℕ → Str
  pub parse_uuid : Str → Option ℕ
  -- the address as `EmailStr` returns it, or `none` where it is refused
  pub parse_email : Str → Option Str
  -- `PasswordHash.hash` with the salt that it draws, and `PasswordHash.verify`
  pub password_hash : ℕ → Str → Str
  pub password_verify : Str → Str → Bool
  -- `str` of what stands under `ctx["error"]`, and the item that pydantic makes for a refusal
  pub str : Value → Str
  pub refusal : Str → ErrorItem
  -- `hashlib.sha256(text.encode()).hexdigest()`
  pub sha256_hex : Str → Str
  -- `jwt.encode` and `jwt.decode` with HS256; `none` is any `PyJWTError` at the instant given
  pub jwt_encode : Payload → Str → Str
  pub jwt_decode : ℕ → Str → Str → Option (Dict Claim)

-- The documented behaviour that the theorems use.
pub record Laws (p : Platform) : Type 0 where
  pub uuid_round_trip : (n : ℕ) → p.parse_uuid (p.uuid_text n) ≡ some n
  pub verify_hash :
      (salt : ℕ) (plain : Str) → p.password_verify plain (p.password_hash salt plain) ≡ true
  pub decode_encode :
      (now : ℕ) (payload : Payload) (secret : Str)
      → now + 1000000 ≤ payload.exp
      → p.jwt_decode now (p.jwt_encode payload secret) secret ≡ some payload.claims

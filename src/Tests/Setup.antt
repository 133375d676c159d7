-- ===== src/Tests/Setup.antt =====
-- A process with concrete libraries, settings and rows.
use pizzaria_api.Prelude.{
  ℕ, zero, suc, ◌+◌, ◌≡◌, ◌≤◌, refl, Bool, true, false, Option, none, some, [], ◌∷◌, ltb, ◌&&◌,
  arith, if◌then◌else◌, length,
}
use pizzaria_api.Prelude.Dict.{Str, Dict, str_eq, str_eq_refl}
use pizzaria_api.Errors.{Value}
use pizzaria_api.Text.{Unicode, codes}
use pizzaria_api.Platform.{Platform, Laws, Payload, Claim, text, other}
use pizzaria_api.Prisma.Memory.Tables.{Tables, memory_client}
use pizzaria_api.Prisma.Rows.{UserRow, RoleRow, UnitRow, UnitFields, TokenRow}
use pizzaria_api.RateLimit.Checks.{IsMonotone}
use pizzaria_api.Security.{access_claims}
use pizzaria_api.World.{Context, World, Settings, development}
use pizzaria_api.Logger.Lines.{info}

abbrev pub plain_unicode : Unicode
plain_unicode = record { lower_text = λ s. s; upper_text = λ s. s; is_wide_space = λ c. false }

-- A text before another one, with its end marked.
abbrev enclose : Str → Str → Str
enclose [] rest = 0 ∷ rest
enclose (c ∷ s) rest = suc c ∷ enclose s rest

abbrev put_first : ℕ → Str × Str → Str × Str
put_first c (s, rest) = (c ∷ s, rest)

abbrev disclose : Str → Str × Str
disclose [] = ([], [])
disclose (zero ∷ rest) = ([], rest)
disclose (suc c ∷ s) = put_first c (disclose s)

disclose-enclose : (s rest : Str) → disclose (enclose s rest) ≡ (s, rest)
disclose-enclose [] rest = refl
disclose-enclose (c ∷ s) rest = rw (disclose-enclose s rest)

abbrev write_claims : Dict Claim → Str
write_claims [] = []
write_claims ((key, text value) ∷ d) = 1 ∷ enclose key (enclose value (write_claims d))
write_claims ((key, other) ∷ d) = 0 ∷ enclose key (write_claims d)

abbrev read_claims : ℕ → Str → Dict Claim
read_claims zero s = []
read_claims (suc n) [] = []
read_claims (suc n) (zero ∷ s) = ((disclose s).0, other) ∷ read_claims n (disclose s).1
read_claims (suc n) (suc _ ∷ s) =
    ((disclose s).0, text (disclose (disclose s).1).0) ∷ read_claims n (disclose (disclose s).1).1

read_claims-write_claims : (d : Dict Claim) → read_claims (length d) (write_claims d) ≡ d
read_claims-write_claims [] = refl
read_claims-write_claims ((key, text value) ∷ d) = rw (
  disclose-enclose key (enclose value (write_claims d)),
  disclose-enclose value (write_claims d),
  read_claims-write_claims d,
)
read_claims-write_claims ((key, other) ∷ d) =
    rw (disclose-enclose key (write_claims d), read_claims-write_claims d)

abbrev sign : Payload → Str → Str
sign payload secret =
    payload.exp ∷ length payload.claims ∷ enclose secret (write_claims payload.claims)

abbrev open_token : ℕ → Str → Str → Option (Dict Claim)
open_token now [] secret = none
open_token now (_ ∷ []) secret = none
open_token now (exp ∷ n ∷ s) secret =
    if str_eq (disclose s).0 secret && ltb now exp
    then some (read_claims n (disclose s).1)
    else none

abbrev text_to_uuid : Str → Option ℕ
text_to_uuid [] = none
text_to_uuid (n ∷ []) = some n
text_to_uuid (n ∷ _ ∷ _) = none

abbrev verifies : Str → Str → Bool
verifies plain [] = false
verifies plain (salt ∷ hashed) = str_eq plain hashed

abbrev pub libraries : Platform
libraries = record {
  unicode = plain_unicode;
  uuid_text = λ n. n ∷ [];
  parse_uuid = text_to_uuid;
  parse_email = λ s. some s;
  password_hash = λ salt plain. salt ∷ plain;
  password_verify = verifies;
  str = λ v. [];
  refusal = λ message. record {
    type = codes "value_error";
    loc = [];
    msg = message;
    input = Value.null;
    ctx = none;
  };
  sha256_hex = λ s. 35 ∷ s;
  jwt_encode = sign;
  jwt_decode = open_token;
}

open_token-sign :
    (now : ℕ) (payload : Payload) (secret : Str)
    → now + 1000000 ≤ payload.exp
    → open_token now (sign payload secret) secret ≡ some payload.claims
open_token-sign now payload secret h =
    let soon : ltb now payload.exp ≡ true = ground arith in
    rw (
      disclose-enclose secret (write_claims payload.claims),
      str_eq_refl secret,
      soon,
      read_claims-write_claims payload.claims,
    )

pub libraries-Laws : Laws libraries
libraries-Laws = record {
  uuid_round_trip = λ n. refl;
  verify_hash = λ salt plain. str_eq_refl plain;
  decode_encode = open_token-sign;
}

abbrev pub settings : Settings
settings = record {
  jwt_secret = codes "secret";
  smtp_host = some (codes "mail");
  smtp_port = 587;
  smtp_username = none;
  smtp_password = none;
  smtp_sender = some (codes "shop@x.io");
  smtp_use_tls = true;
  password_reset_url = none;
  app_env = development;
  log_level = info;
  host = codes "127.0.0.1";
  port = 8000;
}

-- Each reading of a clock is one unit after the last.
abbrev pub process : Context
process = record {
  settings = settings;
  platform = libraries;
  client = memory_client;
  clock = λ i. i;
  utc = λ i. i;
  random = λ i. 500 + i;
  deliver = λ host port commands. true;
}

pub clock-IsMonotone : IsMonotone process.clock
clock-IsMonotone i j h = h

abbrev pub role_row : Str → RoleRow
role_row name = record { id = name; name = name; description = [] }

abbrev pub password : Str
password = codes "margherita"

-- An account with the password above.
abbrev pub account : ℕ → Str → Str → Bool → UserRow
account id email role is_active = record {
  id = id ∷ [];
  email = email;
  name = codes "Ana";
  hashed_password = 7 ∷ password;
  is_active = is_active;
  role = some (role_row role);
  created_at = 0;
  updated_at = 0;
  deleted_at = none;
}

abbrev pub ana : UserRow
ana = account 1 (codes "ana@x.io") (codes "ADMIN") true

abbrev pub bia : UserRow
bia = account 2 (codes "bia@x.io") (codes "CUSTOMER") true

abbrev pub caio : UserRow
caio = account 3 (codes "caio@x.io") (codes "STAFF") false

abbrev pub shop_fields : UnitFields
shop_fields = record {
  name = codes "Centro";
  cnpj = codes "12ABC34501DE35";
  email = codes "centro@x.io";
  phone = codes "11 5555";
  street = codes "Rua A";
  number = codes "10";
  neighborhood = codes "Centro";
  city = codes "São Paulo";
  state = codes "SP";
  zip = codes "01001000";
}

abbrev pub shop : UnitRow
shop = record {
  id = 9 ∷ [];
  fields = shop_fields;
  is_active = true;
  created_at = 0;
  updated_at = 0;
  deleted_at = none;
}

abbrev pub used_token : TokenRow
used_token = record {
  id = 4 ∷ [];
  user_id = 1 ∷ [];
  token_hash = 35 ∷ codes "old";
  expires_at = 1000;
  used_at = some 3;
}

abbrev pub fresh_token : TokenRow
fresh_token = record {
  id = 5 ∷ [];
  user_id = 1 ∷ [];
  token_hash = 35 ∷ codes "new";
  expires_at = 1000;
  used_at = none;
}

abbrev pub tables : Tables
tables = record {
  users = ana ∷ bia ∷ caio ∷ [];
  units = shop ∷ [];
  tokens = used_token ∷ fresh_token ∷ [];
  roles = [];
  ingredients = [];
}

abbrev pub start : World process
start = record { db = tables; limiter = record { windows = []; reads = 0 }; draws = 0; outbox = [] }

-- What `create_access_token` gives at the start for this id and role.
abbrev pub access_token : ℕ → Str → Str
access_token id role =
    process.platform.jwt_encode (record { claims = access_claims (id ∷ []) role; exp = 900000000 })
      settings.jwt_secret

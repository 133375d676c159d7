-- ===== src/World.antt =====
-- What a running process has: the settings (src/core/config.py), the libraries, the database's
-- client, the clocks and the random draws; and the state that requests change.
pub mod Inversion
pub mod Keeps
use pizzaria_api.Prelude.{ℕ, ◌+◌, Bool, Option, none, some, List}
use pizzaria_api.Prelude.Dict.{Str}
use pizzaria_api.Errors.{DomainError, domain, unhandled}
use pizzaria_api.Action.{Action, Result, ok, failed, pure, raise, ◌>>=◌, ◌>>◌, modify}
use pizzaria_api.Platform.{Platform}
use pizzaria_api.Prisma.{Client}
use pizzaria_api.Prisma.Table.{
  Reply, returned, raised, PrismaError, unique_violation, record_not_found, other_error,
}
use pizzaria_api.RateLimit.{Limiter}
use pizzaria_api.Logger.Lines.{Level}

-- `app_env`
pub data Environment : Type 0 where
  development : Environment
  production : Environment
  test : Environment

-- `Settings`: what the modelled code reads.
pub record Settings : Type 0 where
  pub jwt_secret : Str
  pub smtp_host : Option Str
  pub smtp_port : ℕ
  pub smtp_username : Option Str
  pub smtp_password : Option Str
  pub smtp_sender : Option Str
  pub smtp_use_tls : Bool
  pub password_reset_url : Option Str
  pub app_env : Environment
  pub log_level : Level
  pub host : Str
  pub port : ℕ

-- An `EmailMessage`.
pub record Message : Type 0 where
  pub sender : Str
  pub recipient : Str
  pub subject : Str
  pub content : Str

-- What `_send` tells the SMTP server on one connection.
pub data SmtpCommand : Type 0 where
  starttls : SmtpCommand
  login : Str → Str → SmtpCommand
  send_message : Message → SmtpCommand

-- The clocks and the generators are the sequences of what they give: `clock` of `time.monotonic` in
-- nanoseconds, `utc` of `datetime.now(UTC)` in microseconds, `random` of `uuid4` and of the salts.
-- `deliver` tells whether the SMTP server at a host and port takes all commands.
pub record Context : Type 1 where
  pub settings : Settings
  pub platform : Platform
  pub client : Client
  pub clock : ℕ → ℕ
  pub utc : ℕ → ℕ
  pub random : ℕ → ℕ
  pub deliver : Str → ℕ → List SmtpCommand → Bool

-- `draws` counts the readings of `utc` and `random`.
pub record World (ctx : Context) : Type 0 where
  pub db : ctx.client.Db
  pub limiter : Limiter
  pub draws : ℕ
  pub outbox : List Message

abbrev pub microsecond_second : ℕ
microsecond_second = 1000000

module _ (ctx : Context) where
  abbrev pub Db : Type 0
  Db = ctx.client.Db

  abbrev pub W : Type 0
  W = World ctx

  abbrev pub utc_now : Action W ℕ
  utc_now w = (ok (ctx.utc w.draws), record w { draws = w.draws + 1 })

  abbrev pub draw_random : Action W ℕ
  draw_random w = (ok (ctx.random w.draws), record w { draws = w.draws + 1 })

  -- A call whose exceptions nobody catches.
  abbrev pub settle : {A : Type 0} → Reply A → Action W A
  settle (returned a) w = (ok a, w)
  settle (raised e) w = (failed unhandled, w)

  -- `except UniqueViolationError as exc: raise error from exc`
  abbrev pub settle_unique : {A : Type 0} → DomainError → Reply A → Action W A
  settle_unique error (returned a) w = (ok a, w)
  settle_unique error (raised unique_violation) w = (failed (domain error), w)
  settle_unique error (raised e) w = (failed unhandled, w)

  -- `except RecordNotFoundError as exc: raise error from exc`
  abbrev pub settle_found : {A : Type 0} → DomainError → Reply A → Action W A
  settle_found error (returned a) w = (ok a, w)
  settle_found error (raised record_not_found) w = (failed (domain error), w)
  settle_found error (raised e) w = (failed unhandled, w)

  abbrev pub query : {A : Type 0} → (Db → Reply A) → Action W A
  query f w = settle (f w.db) w

  -- A call that writes, with the reply handed on.
  abbrev pub execute : {A : Type 0} → (Db → Reply A × Db) → Action W (Reply A)
  execute f w = let (r, db) = f w.db in (ok r, record w { db = db })

  abbrev pub limiting : {A : Type 0} → Action Limiter A → Action W A
  limiting m w = let (r, l) = m w.limiter in (r, record w { limiter = l })

  -- A value that a validator outside any request refuses: an exception that nobody catches.
  abbrev pub or_unhandled : {A : Type 0} → Option A → Action W A
  or_unhandled none w = (failed unhandled, w)
  or_unhandled (some a) w = (ok a, w)

-- ===== src/Auth/Service/Forgot.antt =====
-- `forgot_password` of src/modules/auth/auth_service.py: what is stored and what is sent.
use pizzaria_api.Prelude.{ℕ, ◌+◌, ◌*◌, ◌≡◌, refl, Option, none, some, [], ◌∷◌, ◌++◌}
use pizzaria_api.Prelude.Dict.{Str}
use pizzaria_api.Errors.{feature_unavailable_error}
use pizzaria_api.Action.{ok}
use pizzaria_api.World.{Message, Context, World, Db, limiting, microsecond_second}
use pizzaria_api.Prisma.Table.{returned}
use pizzaria_api.Prisma.Rows.{UserRow, TokenRow, TokenCond}
use pizzaria_api.Security.{hash_reset_token, hash_password}
use pizzaria_api.Security.Tokens.{drawn}
use pizzaria_api.Security.Guards.{Refuses}
use pizzaria_api.Email.{disabled, smtp, Smtp, is_available}
use pizzaria_api.RateLimit.{check, record_attempt}
use pizzaria_api.RateLimit.Steps.{record_attempt-ok}
use pizzaria_api.Users.Repository.{get_by_email}
use pizzaria_api.Auth.Tokens
use pizzaria_api.Auth.Limits.{forgot_password_per_email, forgot_password_key}
use pizzaria_api.Auth.Dependencies.{auth_service}
use pizzaria_api.Auth.Service.{forgot_password, send_reset}
use pizzaria_api.Text.Parts.{Contains}

module _ (ctx : Context) where
  -- Where no mail server is configured, every request gets the same 503 before the counter, the
  -- database or the outbox is reached.
  pub forgot_password_disabled :
      (email : Str) (w : World ctx)
      → Refuses ctx 503 w (forgot_password ctx (auth_service ctx disabled) email w)
  unfolding forgot_password is_available feature_unavailable_error
  forgot_password_disabled email w = record {
    error = _;
    raised = refl;
    status_code = refl;
    db = refl;
    limiter = refl;
    outbox = refl;
  }

  -- One request is counted under the address.
  abbrev pub requested : Str → World ctx → World ctx
  requested email w = record w {
    limiter =
        (record_attempt ctx.clock (forgot_password_key ctx.platform.unicode email)
          forgot_password_per_email w.limiter).1;
  }

  abbrev pub AdmitsRequest : Str → World ctx → World ctx → Type 0
  AdmitsRequest email w v =
      limiting ctx
        (check ctx.clock (forgot_password_key ctx.platform.unicode email) forgot_password_per_email)
        w
      ≡ (ok tt, v)

  forgot_password_step :
      (s : Smtp) (email : Str) (found : Option UserRow) (w v : World ctx)
      → AdmitsRequest email w v
      → get_by_email ctx email (requested email v) ≡ (ok found, requested email v)
      → forgot_password ctx (auth_service ctx (smtp s)) email w
        ≡ send_reset ctx (auth_service ctx (smtp s)) email found (requested email v)
  unfolding forgot_password is_available
  forgot_password_step s email found w v admitted read = rw (
    admitted,
    record_attempt-ok ctx.clock (forgot_password_key ctx.platform.unicode email)
        forgot_password_per_email v.limiter,
    read,
  )

  -- A request for an address without an account succeeds; it counts under the address, stores and
  -- sends nothing, and takes one random draw for the token and one for the salt of its hash.
  pub forgot_password_unknown :
      (s : Smtp) (email : Str) (w v : World ctx)
      → AdmitsRequest email w v
      → get_by_email ctx email (requested email v) ≡ (ok none, requested email v)
      → forgot_password ctx (auth_service ctx (smtp s)) email w
        ≡ (ok tt, drawn (drawn (requested email v)))
  unfolding hash_password
  forgot_password_unknown s email w v admitted read =
      forgot_password_step s email none w v admitted read

  -- What a request for this account has done once it has returned, with the random text drawn
  -- first: the old tokens are deleted, then one row is added with the hash of the text, which
  -- expires an hour from the reading of the clock, and one message with the text goes to the
  -- address.
  pub record Sent (s : Smtp) (email : Str) (user : UserRow) (w t : World ctx) : Type 0 where
    pub user_id : ℕ
    pub identity : ctx.platform.parse_uuid user.id ≡ some user_id
    pub removed : ℕ
    pub cleared : Db ctx
    pub deletes :
        ctx.client.password_reset_token.delete_many
          (TokenCond.user_id_is (ctx.platform.uuid_text user_id) ∷ [])
          w.db
        ≡ (returned removed, cleared)
    pub row : TokenRow
    pub stores :
        ctx.client.password_reset_token.create
          (record {
            user_id = ctx.platform.uuid_text user_id;
            token_hash = hash_reset_token ctx (ctx.platform.uuid_text (ctx.random w.draws));
            expires_at = ctx.utc (w.draws + 1) + 3600 * microsecond_second;
          })
          cleared
        ≡ (returned row, t.db)
    pub message : Message
    pub sends : t.outbox ≡ w.outbox ++ message ∷ []
    pub sender : message.sender ≡ s.sender
    pub recipient : message.recipient ≡ email
    pub carries : Contains (ctx.platform.uuid_text (ctx.random w.draws)) message.content

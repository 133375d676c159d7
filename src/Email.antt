-- ===== src/Email.antt =====
-- src/infra/email/email_service.py and src/infra/email/email_dependencies.py.
use pizzaria_api.Prelude.{
  ℕ, Bool, true, false, Option, none, some, List, [], ◌∷◌, ◌++◌, if◌then◌else◌,
}
use pizzaria_api.Prelude.Dict.{Str}
use pizzaria_api.Text.{codes}
use pizzaria_api.Errors.{feature_unavailable_error, unhandled}
use pizzaria_api.Action.{Action, ok, failed, raise}
use pizzaria_api.World.{Settings, Context, W, Message, SmtpCommand, starttls, login, send_message}

abbrev pub password_reset_subject : Str
password_reset_subject = codes "Redefinição de senha"

abbrev pub email_unavailable_message : Str
email_unavailable_message =
    codes "Password reset by email is not available: no SMTP server is configured"

-- The fields of `SmtpEmailService`.
pub record Smtp : Type 0 where
  pub host : Str
  pub port : ℕ
  pub sender : Str
  pub username : Option Str
  pub password : Option Str
  pub use_tls : Bool
  pub reset_url : Option Str

-- The implementations of `EmailServiceProtocol`.
pub data EmailService : Type 0 where
  disabled : EmailService
  smtp : Smtp → EmailService

abbrev from_settings : Settings → Option Str → Option Str → EmailService
from_settings s none sender = disabled
from_settings s (some host) none = disabled
from_settings s (some host) (some sender) = smtp (record {
  host = host;
  port = s.smtp_port;
  sender = sender;
  username = s.smtp_username;
  password = s.smtp_password;
  use_tls = s.smtp_use_tls;
  reset_url = s.password_reset_url;
})

unfoldable pub get_email_service : Settings → EmailService
get_email_service s = from_settings s s.smtp_host s.smtp_sender

unfoldable pub is_available : EmailService → Bool
is_available disabled = false
is_available (smtp s) = true

-- `warn_if_email_disabled`: whether the start logs `email_delivery_disabled`
unfoldable pub warns_email_disabled : Settings → Bool
unfolding get_email_service is_available
warns_email_disabled s = if is_available (get_email_service s) then false else true

-- `if value:` on an optional text
abbrev pub truthy : Option Str → Option Str
truthy none = none
truthy (some []) = none
truthy (some (c ∷ s)) = some (c ∷ s)

abbrev pub instructions : Str → Option Str → Str
instructions token none = codes "Use este código para definir uma nova senha:\n" ++ token
instructions token (some url) =
    codes "Acesse o link para definir uma nova senha:\n" ++ url ++ codes "?token=" ++ token

unfoldable pub build_password_reset_message : Smtp → Str → Str → Message
build_password_reset_message s email token = record {
  sender = s.sender;
  recipient = email;
  subject = password_reset_subject;
  content =
      instructions token (truthy s.reset_url)
      ++ codes "\n\nO pedido expira em 1 hora. Se não foi você quem pediu, ignore este e-mail.";
}

abbrev login_commands : Option Str → Option Str → List SmtpCommand
login_commands none password = []
login_commands (some user) none = []
login_commands (some user) (some password) = login user password ∷ []

-- `_send`
unfoldable pub smtp_commands : Smtp → Message → List SmtpCommand
smtp_commands s message =
    (if s.use_tls then starttls ∷ [] else [])
    ++ (login_commands (truthy s.username) (truthy s.password) ++ send_message message ∷ [])

module _ (ctx : Context) where
  -- A message that the server takes is in the outbox; if it refuses, `smtplib` raises.
  abbrev pub transmit : Smtp → Message → Action (W ctx) (Unit {0})
  transmit s message w =
      if ctx.deliver s.host s.port (smtp_commands s message)
      then (ok tt, record w { outbox = w.outbox ++ message ∷ [] })
      else (failed unhandled, w)

  unfoldable pub send_password_reset_email : EmailService → Str → Str → Action (W ctx) (Unit {0})
  unfolding build_password_reset_message
  send_password_reset_email disabled email token =
      raise (feature_unavailable_error email_unavailable_message)
  send_password_reset_email (smtp s) email token =
      transmit s (build_password_reset_message s email token)

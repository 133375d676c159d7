-- ===== src/Auth/Controller.antt =====
-- src/modules/auth/auth_controller.py: each endpoint with the limit that runs before it.
use pizzaria_api.Prelude.{Option}
use pizzaria_api.Prelude.Dict.{Str}
use pizzaria_api.Action.{Action, ◌>>=◌, ◌>>◌}
use pizzaria_api.World.{Context, W}
use pizzaria_api.Validation.{Field}
use pizzaria_api.Requests.{validated}
use pizzaria_api.Auth.Schema.{
  LoginBody, ResetPasswordBody, LoginResponseDto, login_dto, forgot_password_dto, refresh_token_dto,
  reset_password_dto,
}
use pizzaria_api.Auth.Limits.{limit_login_by_ip, limit_forgot_password_by_ip}
use pizzaria_api.Auth.Dependencies.{get_auth_service}
use pizzaria_api.Auth.Service

module _ (ctx : Context) where
  unfoldable pub login : Option Str → LoginBody → Action (W ctx) LoginResponseDto
  login client body = do
    limit_login_by_ip ctx client
    request ← validated ctx (login_dto ctx.platform body)
    Service.login ctx (get_auth_service ctx) request

  unfoldable pub refresh_token : Field Str → Action (W ctx) LoginResponseDto
  refresh_token body = do
    token ← validated ctx (refresh_token_dto body)
    Service.refresh_token ctx (get_auth_service ctx) token

  unfoldable pub forgot_password : Option Str → Field Str → Action (W ctx) (Unit {0})
  forgot_password client body = do
    limit_forgot_password_by_ip ctx client
    email ← validated ctx (forgot_password_dto ctx.platform body)
    Service.forgot_password ctx (get_auth_service ctx) email

  unfoldable pub reset_password : ResetPasswordBody → Action (W ctx) (Unit {0})
  reset_password body = do
    request ← validated ctx (reset_password_dto body)
    Service.reset_password ctx (get_auth_service ctx) request

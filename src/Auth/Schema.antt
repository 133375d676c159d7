-- ===== src/Auth/Schema.antt =====
-- src/modules/auth/auth_schema.py.
use pizzaria_api.Prelude.{ℕ}
use pizzaria_api.Prelude.Dict.{Str}
use pizzaria_api.Platform.{Platform}
use pizzaria_api.Validation.{Checked, accept, ◌>>=◌, bounded, Field, required, check_email}

abbrev pub password_max_length : ℕ
password_max_length = 128

pub record LoginDto : Type 0 where
  pub email : Str
  pub password : Str

pub record ResetPasswordDto : Type 0 where
  pub token : Str
  pub new_password : Str

pub record LoginUserResponse : Type 0 where
  pub id : ℕ
  pub name : Str
  pub role : Str

pub record LoginResponseDto : Type 0 where
  pub user : LoginUserResponse
  pub access_token : Str
  pub refresh_token : Str
  pub expires_in : ℕ

-- The JSON objects of the four requests.
pub record LoginBody : Type 0 where
  pub email : Field Str
  pub password : Field Str

pub record ResetPasswordBody : Type 0 where
  pub token : Field Str
  pub new_password : Field Str

module _ (p : Platform) where
  unfoldable pub login_dto : LoginBody → Checked LoginDto
  login_dto b = do
    email ← required (check_email p) b.email
    password ← required (bounded 1 password_max_length) b.password
    accept (record { email = email; password = password })

  -- `ForgotPasswordDto`, by its only field
  unfoldable pub forgot_password_dto : Field Str → Checked Str
  forgot_password_dto email = required (check_email p) email

-- `RefreshTokenDto`, by its only field
unfoldable pub refresh_token_dto : Field Str → Checked Str
refresh_token_dto token = required accept token

unfoldable pub reset_password_dto : ResetPasswordBody → Checked ResetPasswordDto
reset_password_dto b = do
  token ← required accept b.token
  new_password ← required (bounded 8 password_max_length) b.new_password
  accept (record { token = token; new_password = new_password })

-- ===== src/Tests/Auth.antt =====
-- The logins, refreshes and resets of src/modules/auth on the database of `Setup`.
use pizzaria_api.Prelude.{ℕ, ◌+◌, ◌*◌, ◌≤◌, ◌≡◌, ◌≢◌, refl, none, some, [], ◌∷◌, true, arith}
use pizzaria_api.Prelude.Dict.{Str, str_eq, lookup, erase}
use pizzaria_api.Text.{codes, lower, is_ascii, lower_ascii}
use pizzaria_api.Errors.{domain, unauthorized_error, too_many_requests_error}
use pizzaria_api.Action.{ok, failed}
use pizzaria_api.World.{World, microsecond_second}
use pizzaria_api.Prisma.Memory.{memory_table, find, any}
use pizzaria_api.RateLimit.{Window, Limiter, ceil_seconds, check, reset, active_window}
use pizzaria_api.RateLimit.Views.{view}
use pizzaria_api.Security.{
  get_current_user, create_access_token, create_refresh_token, verify_password, hash_reset_token,
  refresh_claims,
}
use pizzaria_api.Security.Tokens.{drawn}
use pizzaria_api.Security.Guards.{Refuses}
use pizzaria_api.Email.{smtp, Smtp}
use pizzaria_api.Users.Repository.{get_by_email, get_by_id}
use pizzaria_api.Auth.Tokens
use pizzaria_api.Auth.Tokens.{get_by_token_hash}
use pizzaria_api.Auth.Schema.{LoginDto, LoginResponseDto, ResetPasswordDto}
use pizzaria_api.Auth.Limits.{
  login_key, forgot_password_key, limit_login_by_ip, limit_forgot_password_by_ip, login_per_ip,
  forgot_password_per_ip,
}
use pizzaria_api.Auth.Limits.Keys.{counts_under, keys_disjoint}
use pizzaria_api.Auth.Dependencies.{get_auth_service, auth_service}
use pizzaria_api.Auth.Service.{
  login, refresh_token, forgot_password, reset_password, identity_from, issue_tokens,
  invalid_credentials_message,
}
use pizzaria_api.Auth.Service.Issue.{IsIssued}
use pizzaria_api.Auth.Service.Login.{
  Admits, Opens, Succeeded, counted, key_of, login_rejects, login_blocked, login-get_current_user,
}
use pizzaria_api.Auth.Service.Refresh.{
  Renewed, refresh_token-create_access_token, refresh_token-IsIssued,
}
use pizzaria_api.Auth.Service.Deleted.{delete-refresh_token}
use pizzaria_api.Users.Repository.{get_user_repository, soft_delete}
use pizzaria_api.Users.Service.{delete}
use pizzaria_api.Prisma.Memory.Tables.{users-Laws}
use pizzaria_api.Errors.{unhandled}
use pizzaria_api.Prelude.{◌⊎◌}
use pizzaria_api.Auth.Service.Reset.{Redeemable, reset_password-Refuses}
use pizzaria_api.Tests.Setup.{
  process, start, ana, libraries-Laws, clock-IsMonotone, access_token, password, plain_unicode,
  used_token,
}

abbrev wrong : LoginDto
wrong = record { email = codes "ana@x.io"; password = codes "calzone" }

abbrev right : LoginDto
right = record { email = codes "ana@x.io"; password = password }

admits : (data_in : LoginDto) → Admits process data_in start start
unfolding check active_window lookup
admits data_in = refl

finds_ana : get_by_email process (codes "ana@x.io") start ≡ (ok (some ana), start)
unfolding get_by_email memory_table find str_eq
finds_ana = refl

shut : ¬ Opens process (codes "calzone") (some ana)
unfolding verify_password str_eq
shut o = cc

login_rejects_example : login process (get_auth_service process) wrong start ≡ (
  failed (domain (unauthorized_error invalid_credentials_message)),
  counted process (key_of process wrong) start,
)
login_rejects_example =
    login_rejects process wrong (some ana) start start (admits wrong) finds_ana shut

abbrev failures : Window
failures = record { expires_at = 900; count = 5 }

-- Five failures stand against the address.
abbrev locked : World process
locked = record start {
  limiter = record {
    windows = (login_key plain_unicode (codes "ana@x.io"), failures) ∷ [];
    reads = 4;
  };
}

view-locked : view 4 (login_key plain_unicode (codes "ana@x.io")) locked.limiter ≡ some failures
unfolding lookup str_eq login_key lower is_ascii lower_ascii
view-locked = refl

login_blocked_example :
    (wait : ℕ) × (limiter : Limiter) × (1 ≤ wait)
    × (wait ≤ ceil_seconds 896)
    × ((attempt : Str)
        → login process
            (get_auth_service process)
            (record { email = codes "ana@x.io"; password = attempt })
            locked
          ≡ (failed (domain (too_many_requests_error wait)), record locked { limiter = limiter }))
login_blocked_example =
    login_blocked process (codes "ana@x.io") failures locked clock-IsMonotone view-locked
      (omega arith)

-- What the login of Ana answers.
abbrev response : LoginResponseDto
response = record {
  user = record { id = 1; name = codes "Ana"; role = codes "ADMIN" };
  access_token = access_token 1 (codes "ADMIN");
  refresh_token =
      process.platform.jwt_encode (record { claims = refresh_claims (1 ∷ []); exp = 604800000001 })
        process.settings.jwt_secret;
  expires_in = 900;
}

abbrev logged : World process
logged = (login process (get_auth_service process) right start).1

logs_in : login process (get_auth_service process) right start ≡ (ok response, logged)
unfolding login check active_window lookup reset erase get_by_email memory_table find str_eq
    verify_password identity_from issue_tokens create_access_token create_refresh_token
logs_in = refl

login-get_current_user_example :
    (s : Succeeded process right start response logged) × ((x : World process)
      → process.utc x.draws + microsecond_second
        ≤ process.utc s.found.draws + 15 * 60 * microsecond_second
      → get_current_user process (some response.access_token) x
        ≡ (ok (record { user_id = 1; role = s.role.name }), drawn x))
login-get_current_user_example =
    login-get_current_user process right start response logged libraries-Laws logs_in

refresh_token-create_access_token_example :
    Refuses process 401 start
      (refresh_token process (get_auth_service process) (access_token 2 (codes "CUSTOMER")) start)
unfolding create_access_token
refresh_token-create_access_token_example =
    refresh_token-create_access_token process (2 ∷ []) (codes "CUSTOMER")
      (access_token 2 (codes "CUSTOMER")) start start libraries-Laws refl (omega arith)

issued : IsIssued process response start (drawn (drawn start))
unfolding create_access_token create_refresh_token
issued = record { access = refl; refresh = refl; lifetime = refl; after = refl }

finds_id : get_by_id process 1 (drawn start) ≡ (ok (some ana), drawn start)
unfolding get_by_id memory_table find str_eq
finds_id = refl

refresh_token-IsIssued_example :
    Renewed process
      (some ana)
      (drawn start)
      (refresh_token process (get_auth_service process) response.refresh_token start)
refresh_token-IsIssued_example =
    refresh_token-IsIssued process response start (drawn (drawn start)) start (some ana)
      libraries-Laws issued (omega arith) finds_id

abbrev gone : World process
gone = (delete process (get_user_repository process) 1 start).1

deletes_ana : delete process (get_user_repository process) 1 start ≡ (ok tt, gone)
unfolding delete get_by_id soft_delete memory_table find any str_eq
deletes_ana = refl

delete-refresh_token_example :
    Refuses process 401 gone
      (refresh_token process (get_auth_service process) response.refresh_token gone)
    ⊎ (refresh_token process (get_auth_service process) response.refresh_token gone
        ≡ (failed unhandled, drawn gone))
unfolding delete get_by_id soft_delete memory_table find any str_eq
delete-refresh_token_example =
    delete-refresh_token process (λ db. db.users) (λ db. record db { users = [] }) users-Laws
      response start (drawn (drawn start)) start gone gone libraries-Laws issued deletes_ana refl
      (omega arith)

abbrev again : ResetPasswordDto
again = record { token = codes "old"; new_password = codes "quattro formaggi" }

finds_token :
    get_by_token_hash process (hash_reset_token process (codes "old")) start
    ≡ (ok (some used_token), start)
unfolding get_by_token_hash hash_reset_token memory_table find str_eq
finds_token = refl

spent : ¬ Redeemable process 0 (some used_token)
spent (u, _) = cc

reset_password-Refuses_example :
    Refuses process 400 start (reset_password process (get_auth_service process) again start)
reset_password-Refuses_example =
    reset_password-Refuses process again (some used_token) start finds_token spent

abbrev mail : Smtp
mail = record {
  host = codes "mail";
  port = 587;
  sender = codes "shop@x.io";
  username = none;
  password = none;
  use_tls = true;
  reset_url = none;
}

abbrev mailed : World process
mailed = (forgot_password process (auth_service process (smtp mail)) (codes "ana@x.io") start).1

keys_disjoint_example :
    (limit_login_by_ip process none start
      ≡ counts_under process (codes "login:ip:unknown") login_per_ip start)
    × (limit_forgot_password_by_ip process none start
        ≡ counts_under process (codes "forgot-password:ip:unknown") forgot_password_per_ip start)
    × (codes "login:ip:unknown" ≢ codes "forgot-password:ip:unknown")
    × (login_key plain_unicode (codes "a") ≢ forgot_password_key plain_unicode (codes "a"))
    × ((login_key plain_unicode (codes "a") ≢ codes "login:ip:unknown")
        × (login_key plain_unicode (codes "a") ≢ codes "forgot-password:ip:unknown"))
    × ((forgot_password_key plain_unicode (codes "a") ≢ codes "login:ip:unknown")
        × (forgot_password_key plain_unicode (codes "a") ≢ codes "forgot-password:ip:unknown"))
keys_disjoint_example = keys_disjoint process (codes "a") (codes "a") none none start

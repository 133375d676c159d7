-- ===== src/Tests/Guessing.antt =====
-- Wrong passwords for one account, one after the other.
use pizzaria_api.Prelude.{◌≤◌, ◌≡◌, refl, ap, sym, false, Option, ◌∙◌, some, [], ◌∷◌, List, arith}
use pizzaria_api.Prelude.Dict.{Str, str_eq, lookup, insert, erase}
use pizzaria_api.Text.{codes, lower, is_ascii, lower_ascii}
use pizzaria_api.Prisma.Memory.{memory_table, find}
use pizzaria_api.Prisma.Table.{Reply, returned}
use pizzaria_api.Prisma.Rows.{UserRow}
use pizzaria_api.RateLimit.{check, record_attempt, reset, active_window, sweep_expired}
use pizzaria_api.Security.{verify_password, create_access_token, create_refresh_token}
use pizzaria_api.Users.Repository.{get_by_email}
use pizzaria_api.Auth.Schema.{LoginDto}
use pizzaria_api.Auth.Limits.{login_key}
use pizzaria_api.Auth.Service.{login, identity_from, issue_tokens}
use pizzaria_api.Auth.Service.Login.{key_of}
use pizzaria_api.Auth.Service.Effects.{account_of, OpensIn}
use pizzaria_api.Auth.Service.Guesses.{guesses, NobodyKnows, guesses-le}
use pizzaria_api.Tests.Setup.{process, start, ana, clock-IsMonotone, password}

abbrev attempt : Str → LoginDto
attempt guess = record { email = codes "ana@x.io"; password = guess }

abbrev of_bia : LoginDto
of_bia = record { email = codes "bia@x.io"; password = password }

abbrev ana_key : Str
ana_key = key_of process (attempt [])

finds : (guess : Str) → account_of process (attempt guess) start.db ≡ returned (some ana)
unfolding memory_table find str_eq
finds guess = refl

-- The hash in a reply of the client.
abbrev hash_in : Reply (Option UserRow) → Str
hash_in (returned (some user)) = user.hashed_password
hash_in _ = []

shut_for_calzone : verify_password process (codes "calzone") ana.hashed_password ≡ false
unfolding verify_password str_eq
shut_for_calzone = refl

calzone_closed : ¬ OpensIn process (attempt (codes "calzone")) start.db
calzone_closed (user, e, opens) =
    let same : ana.hashed_password ≡ user.hashed_password =
      ap hash_in (sym (finds (codes "calzone")) ∙ e) in
    cc (sym shut_for_calzone ∙ ap (verify_password process (codes "calzone")) same ∙ opens)

abbrev requests : List LoginDto
requests = attempt (codes "calzone") ∷ of_bia ∷ attempt (codes "calzone") ∷ []

nobody_knows : NobodyKnows process ana_key requests start
unfolding str_eq login_key lower is_ascii lower_ascii
nobody_knows = ((λ s. calzone_closed), ((λ s. cc), ((λ s. calzone_closed), tt)))

guesses-le_example : (guesses process ana_key requests start).0 ≤ 5
unfolding guesses login check record_attempt active_window sweep_expired lookup insert reset erase
    get_by_email memory_table find str_eq verify_password identity_from issue_tokens
    create_access_token create_refresh_token login_key lower is_ascii lower_ascii
guesses-le_example =
    guesses-le process ana_key requests start clock-IsMonotone (record { distinct = tt }) refl
      nobody_knows (omega arith)

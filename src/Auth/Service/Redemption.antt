-- ===== src/Auth/Service/Redemption.antt =====
-- A reset token of src/modules/auth/auth_service.py is redeemed at most once.
use pizzaria_api.Prelude.{
  ℕ, ◌≡◌, ◌≢◌, ap, sym, ◌∙◌, true, Option, none, some, List, [], ◌∷◌, All, not, ltb, arith,
}
use mathlib.Core.Path.{subst}
use pizzaria_api.Prelude.Dict.{Str}
use pizzaria_api.Errors.{forbidden_error}
use pizzaria_api.Action.{ok, ◌>>=◌, >>=_inv}
use pizzaria_api.World.{Context, World, Db, execute, settle, or_unhandled}
use pizzaria_api.World.Inversion.{
  ok_state, settle_inv, or_raise_then, raise_if_then, query_then, or_unhandled_then, query_inv,
}
use pizzaria_api.Prisma.Table.{Reply, returned, Laws}
use pizzaria_api.Prisma.Rows.{UserRow, TokenRow, TokenCond, UserCond}
use pizzaria_api.Prisma.Meaning.{token_meaning, user_meaning, is_none}
use pizzaria_api.Security.{hash_reset_token, hash_password}
use pizzaria_api.Security.Tokens.{drawn}
use pizzaria_api.Security.Guards.{Refuses}
use pizzaria_api.Users.Repository.{get_by_id}
use pizzaria_api.Auth.Tokens
use pizzaria_api.Auth.Tokens.{get_by_token_hash, reset_writes, second_write}
use pizzaria_api.Auth.Schema.{ResetPasswordDto}
use pizzaria_api.Auth.Dependencies.{get_auth_service}
use pizzaria_api.Auth.Service.{reset_password, bad_token, inactive_user_message}
use pizzaria_api.Auth.Service.Marks.{
  Marks, reset_writes-Marks, Spent, at_member, Owns, Marks-Spent, IsIndexed,
}
use pizzaria_api.Auth.Service.Reset.{Redeemable, reset_password-Refuses}

module _ (ctx : Context) (users : Db ctx → List UserRow) (tokens : Db ctx → List TokenRow)
    {Rest : Type 0} (rest : Db ctx → Rest)
    (user_laws : Laws ctx.client.user (user_meaning ctx.client.same) users tokens)
    (token_laws : Laws ctx.client.password_reset_token
      (token_meaning ctx.client.same)
      tokens
      rest) where
  module _
      (commits : (f : Db ctx → Reply (Unit {0}) × Db ctx) (db db' : Db ctx)
        → ctx.client.transaction f db ≡ (returned tt, db')
        → f db ≡ (returned tt, db')) where
    Tokens-reset_password_inv :
        (user_id token_id : ℕ) (hashed : Str) (w t : World ctx)
        → Tokens.reset_password ctx user_id token_id hashed w ≡ (ok tt, t)
        → Marks ctx users tokens rest user_laws token_laws
            (ctx.platform.uuid_text token_id)
            w.db
            t.db
    unfolding Tokens.reset_password
    Tokens-reset_password_inv user_id token_id hashed w t h =
        let block =
          reset_writes ctx (ctx.platform.uuid_text user_id) (ctx.platform.uuid_text token_id) hashed
            (ctx.utc w.draws) in
        let (reply, s, e, f) =
          >>=_inv (execute ctx (ctx.client.transaction block)) (settle ctx) (drawn w) h in
        let (made, q) = settle_inv ctx reply tt s t f in
        let (answer, final) = ok_state e in
        let done : ctx.client.transaction block w.db ≡ (returned tt, t.db) =
          λ i. ((answer ∙ made) i, ((final ∙ sym q) i).db) in
        reset_writes-Marks ctx users tokens rest user_laws token_laws
          (ctx.platform.uuid_text user_id) (ctx.platform.uuid_text token_id) hashed
          (ctx.utc w.draws) w.db t.db (commits block w.db t.db done)

    -- What a redemption that returned had found.
    record Redeemed (hash : Str) (w t : World ctx) : Type 0 where
      token : TokenRow
      id : ℕ
      read :
          ctx.client.password_reset_token.find_first (TokenCond.token_hash_is hash ∷ []) w.db
          ≡ returned (some token)
      named : ctx.platform.parse_uuid token.id ≡ some id
      marks : Marks ctx users tokens rest user_laws token_laws (ctx.platform.uuid_text id) w.db t.db

    -- The end of a redemption, from the hash of the new password on.
    writes :
        (hash : Str) (token : TokenRow) (w t : World ctx)
        → ctx.client.password_reset_token.find_first (TokenCond.token_hash_is hash ∷ []) w.db
          ≡ returned (some token)
        → (user : UserRow) (plain : Str)
        → (hash_password ctx plain >>= λ hashed.
              or_unhandled ctx (ctx.platform.parse_uuid user.id) >>= λ user_id.
              or_unhandled ctx (ctx.platform.parse_uuid token.id) >>= λ id.
              Tokens.reset_password ctx user_id id hashed)
            (drawn w)
          ≡ (ok tt, t)
        → Redeemed hash w t
    unfolding hash_password
    writes hash token w t read user plain k =
        or_unhandled_then ctx (ctx.platform.parse_uuid user.id) _ (drawn (drawn w)) k λ user_id _ k.
          or_unhandled_then ctx (ctx.platform.parse_uuid token.id) _ (drawn (drawn w)) k
            λ id named k. record {
              token = token;
              id = id;
              read = read;
              named = named;
              marks = Tokens-reset_password_inv user_id id _ (drawn (drawn w)) t k;
            }

    reset_password-Redeemed :
        (data_in : ResetPasswordDto) (w t : World ctx)
        → reset_password ctx (get_auth_service ctx) data_in w ≡ (ok tt, t)
        → Redeemed (hash_reset_token ctx data_in.token) w t
    unfolding reset_password get_by_token_hash get_by_id
    reset_password-Redeemed data_in w t h =
        let hash = hash_reset_token ctx data_in.token in
        query_then ctx
          (ctx.client.password_reset_token.find_first (TokenCond.token_hash_is hash ∷ [])) _ w h
          λ found read k. or_raise_then found (bad_token ctx) _ w k λ token there_ k.
            let k = raise_if_then (not (is_none token.used_at)) (bad_token ctx) _ w k in
            let k =
              raise_if_then (ltb token.expires_at (ctx.utc w.draws)) (bad_token ctx) _ (drawn w)
                k in
            or_unhandled_then ctx (ctx.platform.parse_uuid token.user_id) _ (drawn w) k λ owner _ k.
              query_then ctx
                (ctx.client.user.find_first
                  (UserCond.id_is (ctx.platform.uuid_text owner) ∷ UserCond.not_deleted ∷ []))
                _ (drawn w) k
                λ account _ k. or_raise_then account (bad_token ctx) _ (drawn w) k λ user _ k.
                  writes hash token w t (read ∙ ap returned there_) user data_in.new_password (
                    raise_if_then (not user.is_active) (forbidden_error inactive_user_message) _
                      (drawn w) k)

    Redeemed-Spent :
        (hash : Str) (w t : World ctx)
        → IsIndexed ctx users tokens rest user_laws token_laws hash w.db
        → Redeemed hash w t
        → Spent ctx users tokens rest user_laws token_laws hash t.db
    Redeemed-Spent hash w t indexed r =
        let (member, matched) = token_laws.found _ w.db r.token r.read in
        let same : ctx.client.same r.token.token_hash hash ≡ true = ground arith in
        let alone = indexed.unique r.token member same in
        let id = indexed.canonical r.token r.id member r.named in
        let own =
          at_member ctx users tokens rest user_laws token_laws
            (λ q. ctx.client.same q.token_hash hash ≡ true → ctx.client.same q.id r.token.id ≡ true)
            r.token (tokens w.db) alone member same in
        Marks-Spent ctx users tokens rest user_laws token_laws (ctx.platform.uuid_text r.id) hash
          r.token w.db t.db r.marks member (subst (λ i. ctx.client.same r.token.id i ≡ true) id own)
          (subst (λ i. Owns ctx users tokens rest user_laws token_laws i hash w.db) id alone)

    not_Redeemable :
        (hash : Str) (now : ℕ) (found : Option TokenRow) (v : World ctx)
        → Spent ctx users tokens rest user_laws token_laws hash v.db
        → get_by_token_hash ctx hash v ≡ (ok found, v)
        → ¬ Redeemable ctx now found
    unfolding get_by_token_hash
    not_Redeemable hash now none v spent read r = r
    not_Redeemable hash now (some token) v spent read (unused, _) =
        let (reply, _) =
          query_inv ctx
            (ctx.client.password_reset_token.find_first (TokenCond.token_hash_is hash ∷ []))
            (some token) v v read in
        let (member, matched) = token_laws.found _ v.db token reply in
        at_member ctx users tokens rest user_laws token_laws
          (λ r. ctx.client.same r.token_hash hash ≡ true → r.used_at ≢ none) token (tokens v.db)
          spent member (ground arith) unused

    -- A reset that returned has spent its token, where the index on the hashes is unique and the
    -- ids are as the database writes them: as long as the table of tokens stays as the reset left
    -- it, the same token gets a 400 with nothing changed, whatever the new password.
    pub reset_password_once :
        (data_in again : ResetPasswordDto) (w t v : World ctx) (found : Option TokenRow)
        → IsIndexed ctx users tokens rest user_laws token_laws
            (hash_reset_token ctx data_in.token)
            w.db
        → reset_password ctx (get_auth_service ctx) data_in w ≡ (ok tt, t)
        → again.token ≡ data_in.token
        → tokens v.db ≡ tokens t.db
        → get_by_token_hash ctx (hash_reset_token ctx again.token) v ≡ (ok found, v)
        → Refuses ctx 400 v (reset_password ctx (get_auth_service ctx) again v)
    reset_password_once data_in again w t v found indexed h same_token kept read =
        let hash = hash_reset_token ctx data_in.token in
        let spent = Redeemed-Spent hash w t indexed (reset_password-Redeemed data_in w t h) in
        let spent_later : Spent ctx users tokens rest user_laws token_laws hash v.db =
          subst (λ rs. All (λ r. ctx.client.same r.token_hash hash ≡ true → r.used_at ≢ none) rs)
            (sym kept) spent in
        reset_password-Refuses ctx again found v read (
          not_Redeemable (hash_reset_token ctx again.token) (ctx.utc v.draws) found v
            (subst
              (λ token.
                Spent ctx users tokens rest user_laws token_laws (hash_reset_token ctx token) v.db)
              (sym same_token) spent_later)
            read)

-- ===== src/Auth/Service/Marks.antt =====
-- What the writes of a redemption leave of the tokens of src/modules/auth: the block of
-- `reset_password` in password_reset_token_repository.py.
use pizzaria_api.Prelude.{
  ℕ, ◌≡◌, ◌≢◌, refl, ap, sym, ◌∙◌, true, false, Option, none, some, List, [], ◌∷◌, All, In, here,
  there, inl, inr, Bool-cases,
}
use mathlib.Core.Path.{subst}
use pizzaria_api.Prelude.Dict.{Str}
use pizzaria_api.World.{Context, Db}
use pizzaria_api.Prisma.Table.{Reply, returned, raised, Laws, replace}
use pizzaria_api.Prisma.Rows.{UserRow, TokenRow}
use pizzaria_api.Prisma.Meaning.{token_meaning, user_meaning}
use pizzaria_api.Users.Repository.{no_change}
use pizzaria_api.Auth.Tokens.{reset_writes, second_write}

true-not-false : true ≡ false → ⊥
true-not-false e = cc

module _ (ctx : Context) (users : Db ctx → List UserRow) (tokens : Db ctx → List TokenRow)
    {Rest : Type 0} (rest : Db ctx → Rest)
    (user_laws : Laws ctx.client.user (user_meaning ctx.client.same) users tokens)
    (token_laws : Laws ctx.client.password_reset_token
      (token_meaning ctx.client.same)
      tokens
      rest) where
  -- The write of `used_at` that ends a redemption, on the same tokens as before it.
  pub record Marks (token_id : Str) (db db' : Db ctx) : Type 0 where
    pub now : ℕ
    pub between : Db ctx
    pub kept : tokens between ≡ tokens db
    pub row : Option TokenRow
    pub written :
        ctx.client.password_reset_token.update token_id (record { used_at = some now }) between
        ≡ (returned row, db')

  user_update-tokens :
      (id hashed : Str) (db db' : Db ctx) (row : Option UserRow)
      → ctx.client.user.update id (record no_change { hashed_password = some hashed }) db
        ≡ (returned row, db')
      → tokens db' ≡ tokens db
  user_update-tokens id hashed db db' none h =
      ap tokens ((user_laws.update_missing id _ db db' h).1)
  user_update-tokens id hashed db db' (some row) h =
      let (_, _, _, _, _, same) = user_laws.updated id _ db db' row h in same

  -- Both writes of the block, from the reply of the first.
  second_write_inv :
      (token_id : Str) (now : ℕ) (db db' : Db ctx) (p : Reply (Option TokenRow) × Db ctx)
      → ctx.client.password_reset_token.update token_id (record { used_at = some now }) db ≡ p
      → ◌≡◌ {A = Reply (Unit {0}) × Db ctx}
          (elim p.0 [ returned _ ↦ (returned tt, p.1) | raised e ↦ (raised e, p.1) ])
          (returned tt, db')
      → (row : Option TokenRow) × (p ≡ (returned row, db'))
  second_write_inv token_id now db db' (returned row, last) e h =
      (row, ap (λ d. (returned row, d)) (ap (λ q. q.1) h))
  second_write_inv token_id now db db' (raised x, last) e h = cc (ap (λ q. q.0) h)

  after_user_update :
      (user_id token_id hashed : Str) (now : ℕ) (db db' : Db ctx)
      (p : Reply (Option UserRow) × Db ctx)
      → ctx.client.user.update user_id (record no_change { hashed_password = some hashed }) db ≡ p
      → second_write ctx token_id now p.0 p.1 ≡ (returned tt, db')
      → Marks token_id db db'
  after_user_update user_id token_id hashed now db db' (returned row, between) e h =
      let (marked, written) = second_write_inv token_id now between db' _ refl h in
      record {
        now = now;
        between = between;
        kept = user_update-tokens user_id hashed db between row e;
        row = marked;
        written = written;
      }
  after_user_update user_id token_id hashed now db db' (raised x, between) e h =
      cc (ap (λ q. q.0) h)

  pub reset_writes-Marks :
      (user_id token_id hashed : Str) (now : ℕ) (db db' : Db ctx)
      → reset_writes ctx user_id token_id hashed now db ≡ (returned tt, db')
      → Marks token_id db db'
  reset_writes-Marks user_id token_id hashed now db db' h =
      after_user_update user_id token_id hashed now db db' _ refl h

  -- No row whose hash the database takes for this one can be redeemed.
  abbrev pub Spent : Str → Db ctx → Type 0
  Spent hash db = All (λ r. ctx.client.same r.token_hash hash ≡ true → r.used_at ≢ none) (tokens db)

  some-not-none : {A : Type 0} {a : A} {o : Option A} → o ≡ some a → o ≢ none
  some-not-none e f = cc

  marked_rows :
      (id hash : Str) (new : TokenRow) (now : ℕ) (rs : List TokenRow)
      → new.used_at ≡ some now
      → All (λ r. ctx.client.same r.token_hash hash ≡ true → ctx.client.same r.id id ≡ true) rs
      → All
          (λ r. ctx.client.same r.token_hash hash ≡ true → r.used_at ≢ none)
          (replace (token_meaning ctx.client.same) id new rs)
  marked_rows id hash new now [] e h = tt
  marked_rows id hash new now (r ∷ rs) e (p, h) = elim (Bool-cases (ctx.client.same r.id id)) [
    | inl hit ↦ rw hit (λ _. some-not-none e, marked_rows id hash new now rs e h)
    | inr miss ↦
        rw miss
          (λ m. absurd (true-not-false (sym (p m) ∙ miss)), marked_rows id hash new now rs e h)
  ]

  pub at_member : {A : Type 0} (P : A → Type 0) (x : A) (xs : List A) → All P xs → In x xs → P x
  at_member P x [] h m = elim m [ ]
  at_member P x (y ∷ xs) (p, h) here = p
  at_member P x (y ∷ xs) (p, h) (there m) = at_member P x xs h m

  -- Every row with this hash is the one with this id.
  abbrev pub Owns : Str → Str → Db ctx → Type 0
  Owns id hash db =
      All (λ r. ctx.client.same r.token_hash hash ≡ true → ctx.client.same r.id id ≡ true)
        (tokens db)

  marks-Spent :
      (id hash : Str) (token : TokenRow) (now : ℕ) (row : Option TokenRow) (db db' : Db ctx)
      → ctx.client.password_reset_token.update id (record { used_at = some now }) db
        ≡ (returned row, db')
      → In token (tokens db)
      → ctx.client.same token.id id ≡ true
      → Owns id hash db
      → Spent hash db'
  marks-Spent id hash token now none db db' h member same owns =
      let (absent, _) = token_laws.update_missing id _ db db' h in
      absurd (
        true-not-false (
          sym same
          ∙ at_member (λ r. ctx.client.same r.id id ≡ false) token (tokens db) absent member))
  marks-Spent id hash token now (some new) db db' h member same owns =
      let (old, _, _, change, after, _) = token_laws.updated id _ db db' new h in
      rw after (marked_rows id hash new now (tokens db) change.used owns)

  pub Marks-Spent :
      (id hash : Str) (token : TokenRow) (db db' : Db ctx)
      → Marks id db db'
      → In token (tokens db)
      → ctx.client.same token.id id ≡ true
      → Owns id hash db
      → Spent hash db'
  Marks-Spent id hash token db db' m member same owns =
      marks-Spent id hash token m.now m.row m.between db' m.written
        (subst (λ rs. In token rs) (sym m.kept) member) same
        (subst
          (λ rs.
            All (λ r. ctx.client.same r.token_hash hash ≡ true → ctx.client.same r.id id ≡ true) rs)
          (sym m.kept) owns)

  -- The unique index on the hash, and ids as the database writes them.
  pub record IsIndexed (hash : Str) (db : Db ctx) : Type 0 where
    pub unique :
        (token : TokenRow)
        → In token (tokens db)
        → ctx.client.same token.token_hash hash ≡ true
        → All
            (λ r. ctx.client.same r.token_hash hash ≡ true → ctx.client.same r.id token.id ≡ true)
            (tokens db)
    pub canonical :
        (token : TokenRow) (id : ℕ)
        → In token (tokens db)
        → ctx.platform.parse_uuid token.id ≡ some id
        → token.id ≡ ctx.platform.uuid_text id

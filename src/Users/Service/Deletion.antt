-- ===== src/Users/Service/Deletion.antt =====
-- The soft deletion of an account by src/modules/users/user_service.py over
-- src/modules/users/user_repository.py.
use pizzaria_api.Prelude.{ℕ, ◌≡◌, refl, false, none, some, List, [], ◌∷◌, inl, inr, ◌⊎◌}
use pizzaria_api.Errors.{unhandled}
use pizzaria_api.Action.{ok, failed, >>=_inv, or_raise}
use pizzaria_api.World.{Context, World, Db}
use pizzaria_api.World.Inversion.{found_inv}
use pizzaria_api.Prisma.Table.{Laws}
use pizzaria_api.Prisma.Rows.{UserRow, UserCond, UserUpdateInput}
use pizzaria_api.Prisma.Meaning.{user_meaning, UserUpdated, is_none}
use pizzaria_api.Prisma.Absence.{Absent, update-Absent, find_first-Absent}
use pizzaria_api.Security.Tokens.{drawn}
use pizzaria_api.Users.Repository
use pizzaria_api.Users.Repository.{no_change, user_not_found, get_user_repository}
use pizzaria_api.Users.Service.{delete}

abbrev pub deleted_at : ℕ → UserUpdateInput
deleted_at now = record no_change { deleted_at = some now }

module _ (ctx : Context) {Rest : Type 0} (rows : Db ctx → List UserRow) (rest : Db ctx → Rest)
    (laws : Laws ctx.client.user (user_meaning ctx.client.same) rows rest) where
  -- No account that is not deleted has this id.
  abbrev pub IsGone : ℕ → Db ctx → Type 0
  IsGone user_id =
      Absent ctx.client.user (user_meaning ctx.client.same) rows rest laws
        (UserCond.id_is (ctx.platform.uuid_text user_id) ∷ UserCond.not_deleted ∷ [])

  hides :
      (now : ℕ) (old new : UserRow)
      → UserUpdated ctx.client.same (deleted_at now) old new
      → is_none new.deleted_at ≡ false
  hides now old new change = rw change.alive refl

  soft_delete-IsGone :
      (user_id : ℕ) (w t : World ctx)
      → Repository.soft_delete ctx user_id w ≡ (ok tt, t)
      → IsGone user_id t.db
  unfolding Repository.soft_delete
  soft_delete-IsGone user_id w t h =
      let (reply, written) =
        found_inv ctx
          (ctx.client.user.update (ctx.platform.uuid_text user_id) (deleted_at (ctx.utc w.draws)))
          (user_not_found ctx user_id) (drawn w) t h in
      update-Absent ctx.client.user (user_meaning ctx.client.same) rows rest laws
        (ctx.platform.uuid_text user_id) (UserCond.id_is (ctx.platform.uuid_text user_id))
        UserCond.not_deleted (λ r. refl) (deleted_at (ctx.utc w.draws)) reply w.db t.db
        (hides (ctx.utc w.draws)) written

  pub delete-IsGone :
      (user_id : ℕ) (w t : World ctx)
      → delete ctx (get_user_repository ctx) user_id w ≡ (ok tt, t)
      → IsGone user_id t.db
  unfolding delete
  delete-IsGone user_id w t h =
      let (found, s, e, f) = >>=_inv (Repository.get_by_id ctx user_id) _ w h in
      let (row, x, g, k) = >>=_inv (or_raise found (user_not_found ctx user_id)) _ s f in
      soft_delete-IsGone user_id x t k

  pub get_by_id-IsGone :
      (user_id : ℕ) (w : World ctx)
      → IsGone user_id w.db
      → (Repository.get_by_id ctx user_id w ≡ (ok none, w))
        ⊎ (Repository.get_by_id ctx user_id w ≡ (failed unhandled, w))
  unfolding Repository.get_by_id
  get_by_id-IsGone user_id w gone =
      elim (find_first-Absent ctx.client.user (user_meaning ctx.client.same) rows rest laws
        (UserCond.id_is (ctx.platform.uuid_text user_id) ∷ UserCond.not_deleted ∷ []) w.db gone) [
          | inl r ↦ inl (rw r refl)
          | inr (_, r) ↦ inr (rw r refl)
        ]

-- ===== src/Units/Service/Deletion.antt =====
-- The soft deletion of a unit by src/modules/units/unit_service.py over
-- src/modules/units/unit_repository.py.
use pizzaria_api.Prelude.{ℕ, ◌≡◌, refl, false, some, List, inl, inr, ◌⊎◌}
use pizzaria_api.Errors.{domain, unhandled}
use pizzaria_api.Action.{ok, failed, >>=_inv, or_raise}
use pizzaria_api.World.{Context, World, Db, query}
use pizzaria_api.World.Inversion.{execute_inv}
use pizzaria_api.Prisma.Table.{Laws}
use pizzaria_api.Prisma.Rows.{UnitRow, UnitCond, UnitUpdateInput}
use pizzaria_api.Prisma.Meaning.{unit_meaning, UnitUpdated, is_none}
use pizzaria_api.Prisma.Absence.{Absent, update-Absent, find_first-Absent}
use pizzaria_api.Security.Tokens.{drawn}
use pizzaria_api.Units.Repository
use pizzaria_api.Units.Repository.{by_id, unit_not_found, no_change}
use pizzaria_api.Units.Repository.{get_unit_repository}
use pizzaria_api.Units.Service.{delete, get_by_id}

abbrev deleted_at : ℕ → UnitUpdateInput
deleted_at now = record no_change { deleted_at = some now }

module _ (ctx : Context) {Rest : Type 0} (rows : Db ctx → List UnitRow) (rest : Db ctx → Rest)
    (laws : Laws ctx.client.unit (unit_meaning ctx.client.same) rows rest) where
  -- No unit that is not deleted has this id.
  abbrev IsGone : ℕ → Db ctx → Type 0
  IsGone unit_id =
      Absent ctx.client.unit (unit_meaning ctx.client.same) rows rest laws (by_id ctx unit_id)

  hides :
      (now : ℕ) (old new : UnitRow)
      → UnitUpdated (deleted_at now) old new
      → is_none new.deleted_at ≡ false
  hides now old new change = rw change.alive refl

  soft_delete-IsGone :
      (unit_id : ℕ) (w t : World ctx)
      → Repository.soft_delete ctx unit_id w ≡ (ok tt, t)
      → IsGone unit_id t.db
  unfolding Repository.soft_delete
  soft_delete-IsGone unit_id w t h =
      let (found, s, e, f) =
        >>=_inv (query ctx (ctx.client.unit.find_first (by_id ctx unit_id))) _ w h in
      let (row, x, g, k) = >>=_inv (or_raise found (unit_not_found ctx unit_id)) _ s f in
      let (reply, written, _) =
        execute_inv ctx
          (ctx.client.unit.update (ctx.platform.uuid_text unit_id) (deleted_at (ctx.utc x.draws)))
          (drawn x) t k in
      update-Absent ctx.client.unit (unit_meaning ctx.client.same) rows rest laws
        (ctx.platform.uuid_text unit_id) (UnitCond.id_is (ctx.platform.uuid_text unit_id))
        UnitCond.not_deleted (λ r. refl) (deleted_at (ctx.utc x.draws)) reply x.db t.db
        (hides (ctx.utc x.draws)) written

  -- Once a deletion has returned, reading the unit gives a 404, or a 500 if the database fails.
  pub delete-get_by_id :
      (unit_id : ℕ) (w t : World ctx)
      → delete ctx (get_unit_repository ctx) unit_id w ≡ (ok tt, t)
      → (get_by_id ctx (get_unit_repository ctx) unit_id t
          ≡ (failed (domain (unit_not_found ctx unit_id)), t))
        ⊎ (get_by_id ctx (get_unit_repository ctx) unit_id t ≡ (failed unhandled, t))
  unfolding delete get_by_id Repository.get_by_id
  delete-get_by_id unit_id w t h =
      let (found, s, e, f) = >>=_inv (Repository.get_by_id ctx unit_id) _ w h in
      let (row, x, g, k) = >>=_inv (or_raise found (unit_not_found ctx unit_id)) _ s f in
      elim (find_first-Absent ctx.client.unit (unit_meaning ctx.client.same) rows rest laws
        (by_id ctx unit_id) t.db (soft_delete-IsGone unit_id x t k)) [
          | inl r ↦ inl (rw r)
          | inr (_, r) ↦ inr (rw r)
        ]

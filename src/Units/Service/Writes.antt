-- ===== src/Units/Service/Writes.antt =====
-- What creating and changing a unit by src/modules/units/unit_service.py writes.
use pizzaria_api.Prelude.{ℕ, ◌≡◌, ap, sym, ◌∙◌, false, some, List, [], ◌∷◌, ◌++◌, All, In}
use mathlib.Core.Path.{subst}
use pizzaria_api.Text.{codes}
use pizzaria_api.Errors.{DomainError, domain, conflict_error, bad_request_error}
use pizzaria_api.Action.{ok, failed, ◌>>=◌, >>=_inv, or_raise, raise_if}
use pizzaria_api.World.{Context, World, Db, query, execute, settle_unique}
use pizzaria_api.World.Inversion.{
  ok_state, query_inv, or_raise_inv, or_unhandled_inv, settle_unique_inv, raise_if_inv,
}
use pizzaria_api.Prisma.Table.{returned, raised, unique_violation, Laws, replace}
use pizzaria_api.Prisma.Rows.{UnitRow, UnitFields, UnitUpdateInput}
use pizzaria_api.Prisma.Meaning.{unit_meaning, UnitCreated, UnitUpdated, or_old-Follows}
use pizzaria_api.Validation.{Follows}
use pizzaria_api.Units.Schema.{UpdateUnitRequest, UnitResponse, update_input, has_no_updates}
use pizzaria_api.Units.Repository
use pizzaria_api.Units.Repository.{by_id, unit_not_found}
use pizzaria_api.Units.Repository.{get_unit_repository}
use pizzaria_api.Units.Service.{create, update, to_response}

abbrev pub clash : DomainError
clash = conflict_error (codes "Unit with the provided unique value already exists")

abbrev pub empty_update : DomainError
empty_update = bad_request_error (codes "At least one field must be provided for update")

abbrev pub taken : UnitFields → DomainError
taken fields = conflict_error (codes "Unit with CNPJ " ++ fields.cnpj ++ codes " already exists")

module _ (ctx : Context) {Rest : Type 0} (rows : Db ctx → List UnitRow) (rest : Db ctx → Rest)
    (laws : Laws ctx.client.unit (unit_meaning ctx.client.same) rows rest) where
  -- A creation that returned added one active row with the request's fields at the end of the
  -- table, whose CNPJ no row had, and answers with that row; no other table changed.
  pub create_writes :
      (fields : UnitFields) (response : UnitResponse) (w t : World ctx)
      → create ctx (get_unit_repository ctx) fields w ≡ (ok response, t)
      → (row : UnitRow) × UnitCreated fields row
        × (to_response ctx row ≡ some response)
        × (rows t.db ≡ rows w.db ++ row ∷ [])
        × All (λ r. ctx.client.same r.cnpj fields.cnpj ≡ false) (rows w.db)
        × (rest t.db ≡ rest w.db)
  unfolding create Repository.create
  create_writes fields response w t h =
      let (row, s, e, f) = >>=_inv (Repository.create ctx fields) _ w h in
      let (reply, x, g, k) =
        >>=_inv (execute ctx (ctx.client.unit.create fields)) (settle_unique ctx (taken fields)) w
          e in
      let (answer, same) = or_unhandled_inv ctx (to_response ctx row) response s t f in
      let (made, still) = settle_unique_inv ctx (taken fields) reply row x s k in
      let (q, final) = ok_state g in
      let stored : ctx.client.unit.create fields w.db ≡ (returned row, x.db) =
        λ i. ((q ∙ made) i, (final i).db) in
      let (after, created, free, others) = laws.created fields w.db x.db row stored in
      (
        row,
        created,
        answer,
        ap (λ u. rows u.db) (same ∙ still) ∙ after,
        free,
        ap (λ u. rest u.db) (same ∙ still) ∙ others,
      )

  -- A creation that the unique index on the CNPJ refuses is a 409, and the table is as before.
  pub create_conflict :
      (fields : UnitFields) (w : World ctx) (db : Db ctx)
      → ctx.client.unit.create fields w.db ≡ (raised unique_violation, db)
      → create ctx (get_unit_repository ctx) fields w ≡ (
        failed (
            domain
              (conflict_error (codes "Unit with CNPJ " ++ fields.cnpj ++ codes " already exists"))),
        w,
      )
  unfolding create Repository.create
  create_conflict fields w db h =
      let same = laws.create_raised fields w.db db unique_violation h (λ e. cc) in rw (h, same)

  -- A row after a change: what the request gives is in its field, what it leaves out is as before.
  pub record Patched (request : UpdateUnitRequest) (old new : UnitRow) : Type 0 where
    id : new.id ≡ old.id
    name : Follows request.name old.fields.name new.fields.name
    cnpj : Follows request.cnpj old.fields.cnpj new.fields.cnpj
    email : Follows request.email old.fields.email new.fields.email
    phone : Follows request.phone old.fields.phone new.fields.phone
    street : Follows request.street old.fields.street new.fields.street
    number : Follows request.number old.fields.number new.fields.number
    neighborhood : Follows request.neighborhood old.fields.neighborhood new.fields.neighborhood
    city : Follows request.city old.fields.city new.fields.city
    state : Follows request.state old.fields.state new.fields.state
    zip : Follows request.zip old.fields.zip new.fields.zip
    active : Follows request.is_active old.is_active new.is_active
    created : new.created_at ≡ old.created_at
    deleted : new.deleted_at ≡ old.deleted_at

  UnitUpdated-Patched :
      (request : UpdateUnitRequest) (old new : UnitRow)
      → UnitUpdated (update_input request) old new
      → Patched request old new
  unfolding update_input
  UnitUpdated-Patched request old new u = record {
    id = u.id;
    name = or_old-Follows request.name _ _ (ap (λ f. f.name) u.fields);
    cnpj = or_old-Follows request.cnpj _ _ (ap (λ f. f.cnpj) u.fields);
    email = or_old-Follows request.email _ _ (ap (λ f. f.email) u.fields);
    phone = or_old-Follows request.phone _ _ (ap (λ f. f.phone) u.fields);
    street = or_old-Follows request.street _ _ (ap (λ f. f.street) u.fields);
    number = or_old-Follows request.number _ _ (ap (λ f. f.number) u.fields);
    neighborhood = or_old-Follows request.neighborhood _ _ (ap (λ f. f.neighborhood) u.fields);
    city = or_old-Follows request.city _ _ (ap (λ f. f.city) u.fields);
    state = or_old-Follows request.state _ _ (ap (λ f. f.state) u.fields);
    zip = or_old-Follows request.zip _ _ (ap (λ f. f.zip) u.fields);
    active = or_old-Follows request.is_active _ _ u.active;
    created = u.created;
    deleted = u.alive;
  }

  -- What the repository's change has done.
  record Changed (unit_id : ℕ) (changes : UnitUpdateInput) (w : World ctx) (new : UnitRow)
      (t : World ctx) : Type 0 where
    old : UnitRow
    member : In old (rows w.db)
    change : UnitUpdated changes old new
    after :
        rows t.db
        ≡ replace (unit_meaning ctx.client.same) (ctx.platform.uuid_text unit_id) new (rows w.db)
    others : rest t.db ≡ rest w.db

  written-Changed :
      (unit_id : ℕ) (changes : UnitUpdateInput) (new : UnitRow) (w t : World ctx)
      → ctx.client.unit.update (ctx.platform.uuid_text unit_id) changes w.db
        ≡ (returned (some new), t.db)
      → Changed unit_id changes w new t
  written-Changed unit_id changes new w t h =
      let (old, member, _, change, after, others) = laws.updated _ changes w.db t.db new h in
      record { old = old; member = member; change = change; after = after; others = others }

  Repository-update_inv :
      (unit_id : ℕ) (changes : UnitUpdateInput) (new : UnitRow) (w t : World ctx)
      → Repository.update ctx unit_id changes w ≡ (ok new, t)
      → Changed unit_id changes w new t
  unfolding Repository.update
  Repository-update_inv unit_id changes new w t h =
      let (found, s1, e1, f1) =
        >>=_inv (query ctx (ctx.client.unit.find_first (by_id ctx unit_id))) _ w h in
      let (_, s2, e2, f2) = >>=_inv (or_raise found (unit_not_found ctx unit_id)) _ s1 f1 in
      let (reply, s3, e3, f3) =
        >>=_inv (execute ctx (ctx.client.unit.update (ctx.platform.uuid_text unit_id) changes))
          (λ reply.
            settle_unique ctx clash reply >>= λ row. or_raise row (unit_not_found ctx unit_id))
          s2 f2 in
      let (row, s4, e4, f4) =
        >>=_inv (settle_unique ctx clash reply) (λ row. or_raise row (unit_not_found ctx unit_id))
          s3 f3 in
      let (_, q1) = query_inv ctx (ctx.client.unit.find_first (by_id ctx unit_id)) found w s1 e1 in
      let (_, q2) = or_raise_inv found (unit_not_found ctx unit_id) _ s1 s2 e2 in
      let (made, q3) = settle_unique_inv ctx clash reply row s3 s4 e4 in
      let (there_, q4) = or_raise_inv row (unit_not_found ctx unit_id) new s4 t f4 in
      let (answer, final) = ok_state e3 in
      let start : s2 ≡ w = q2 ∙ q1 in
      let done : t ≡ s3 = q4 ∙ q3 in
      let stored : ctx.client.unit.update (ctx.platform.uuid_text unit_id) changes s2.db
          ≡ (returned (some new), s3.db) =
        λ i. ((answer ∙ made ∙ ap returned there_) i, (final i).db) in
      written-Changed unit_id changes new w t (
        ap (λ u. ctx.client.unit.update (ctx.platform.uuid_text unit_id) changes u.db) (sym start)
        ∙ stored
        ∙ ap (λ u. (returned (some new), u.db)) (sym done))

  -- A change that returned writes one row with the id: each field is the request's where it gives
  -- one and else as before. It answers with the row as it is now; the other rows and the other
  -- tables are as before.
  pub update_lem :
      (unit_id : ℕ) (request : UpdateUnitRequest) (response : UnitResponse) (w t : World ctx)
      → update ctx (get_unit_repository ctx) unit_id request w ≡ (ok response, t)
      → (old : UnitRow) × (new : UnitRow) × In old (rows w.db)
        × Patched request old new
        × (to_response ctx new ≡ some response)
        × (rows t.db
            ≡ replace
                (unit_meaning ctx.client.same)
                (ctx.platform.uuid_text unit_id)
                new
                (rows w.db))
        × (rest t.db ≡ rest w.db)
        × (has_no_updates request ≡ false)
  unfolding update Repository.get_by_id
  update_lem unit_id request response w t h =
      let (found, s1, e1, f1) = >>=_inv (Repository.get_by_id ctx unit_id) _ w h in
      let (_, s2, e2, f2) = >>=_inv (or_raise found (unit_not_found ctx unit_id)) _ s1 f1 in
      let (_, s3, e3, f3) = >>=_inv (raise_if (has_no_updates request) empty_update) _ s2 f2 in
      let (new, s4, e4, f4) =
        >>=_inv (Repository.update ctx unit_id (update_input request)) _ s3 f3 in
      let (_, q1) = query_inv ctx (ctx.client.unit.find_first (by_id ctx unit_id)) found w s1 e1 in
      let (_, q2) = or_raise_inv found (unit_not_found ctx unit_id) _ s1 s2 e2 in
      let (some_update, q3) = raise_if_inv (has_no_updates request) empty_update s2 s3 e3 in
      let (answer, q4) = or_unhandled_inv ctx (to_response ctx new) response s4 t f4 in
      let start : s3 ≡ w = q3 ∙ q2 ∙ q1 in
      let c = Repository-update_inv unit_id (update_input request) new s3 s4 e4 in
      (
        c.old,
        new,
        subst (λ u. In c.old (rows u.db)) start c.member,
        UnitUpdated-Patched request c.old new c.change,
        answer,
        ap (λ u. rows u.db) q4
            ∙ c.after
            ∙ ap
                (λ u.
                  replace (unit_meaning ctx.client.same) (ctx.platform.uuid_text unit_id) new
                    (rows u.db))
                start,
        ap (λ u. rest u.db) q4 ∙ c.others ∙ ap (λ u. rest u.db) start,
        some_update,
      )

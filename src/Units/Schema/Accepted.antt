-- ===== src/Units/Schema/Accepted.antt =====
-- What the bodies of src/modules/units/unit_schema.py say of the CNPJ once they are accepted.
use pizzaria_api.Prelude.{◌≡◌, Option, none, some}
use mathlib.Core.Path.{subst}
use pizzaria_api.Prelude.Dict.{Str}
use pizzaria_api.Platform.{Platform}
use pizzaria_api.Validation.{
  Checked, accept, reject, ◌>>=◌, Field, Given, required, if_given, kwarg, bounded, check_email,
}
use pizzaria_api.Prisma.Rows.{UnitFields}
use pizzaria_api.Units.Cnpj.{normalize_and_validate_cnpj}
use pizzaria_api.Units.Cnpj.Laws.{IsCnpj, normalize_and_validate_cnpj_canonical}
use pizzaria_api.Units.Schema.{
  UnitBody, UpdateUnitRequest, check_cnpj, check_state, check_zip, refuse_other_keys,
  create_unit_request, update_unit_request, update_input,
}

-- A CNPJ that a change names, if it names one, is in normal form.
abbrev pub GivesCnpj : Option Str → Type 0
GivesCnpj none = Unit
GivesCnpj (some v) = IsCnpj v

-- What a validator that accepted hands on to the rest.
accepted_then :
    {A B C : Type 0} (m : Checked A) (f : A → Checked B) {b : B}
    → (m >>= f) ≡ accept b
    → ((a : A) → m ≡ accept a → f a ≡ accept b → C)
    → C
accepted_then (accept a) f h k = k a (λ i. accept a) h
accepted_then (reject e) f h k = absurd (cc h)

accept_inj : {A : Type 0} {a b : A} → accept a ≡ accept b → a ≡ b
accept_inj h = cc

module _ (p : Platform) where
  required-IsCnpj :
      (field : Field Str) (v : Str)
      → required (normalize_and_validate_cnpj p.unicode) field ≡ accept v
      → IsCnpj v
  required-IsCnpj (Field.given s) v h = (normalize_and_validate_cnpj_canonical p.unicode s v h).0
  required-IsCnpj Field.unset v h = absurd (cc h)
  required-IsCnpj Field.null v h = absurd (cc h)
  required-IsCnpj Field.wrong v h = absurd (cc h)

  if_given-GivesCnpj :
      (field : Field Str) (g : Given Str)
      → if_given (normalize_and_validate_cnpj p.unicode) field ≡ accept g
      → GivesCnpj (kwarg g)
  if_given-GivesCnpj Field.unset g h = subst (λ x. GivesCnpj (kwarg x)) (accept_inj h) tt
  if_given-GivesCnpj Field.null g h = subst (λ x. GivesCnpj (kwarg x)) (accept_inj h) tt
  if_given-GivesCnpj (Field.given s) g h =
      accepted_then (normalize_and_validate_cnpj p.unicode s) (λ b. accept (Given.given b)) h
        (λ v e f.
          subst (λ x. GivesCnpj (kwarg x)) (accept_inj f)
            (normalize_and_validate_cnpj_canonical p.unicode s v e).0)
  if_given-GivesCnpj Field.wrong g h = absurd (cc h)

  pub create_unit_request-IsCnpj :
      (body : UnitBody) (fields : UnitFields)
      → create_unit_request p body ≡ accept fields
      → IsCnpj fields.cnpj
  unfolding create_unit_request
  create_unit_request-IsCnpj body fields h =
      accepted_then (required (bounded 1 120) body.name) _ h (λ name _ h1.
        accepted_then (required (check_cnpj p) body.cnpj) _ h1 (λ cnpj valid h2.
          accepted_then (required (check_email p) body.email) _ h2 (λ email _ h3.
            accepted_then (required (bounded 1 20) body.phone) _ h3 (λ phone _ h4.
              accepted_then (required (bounded 1 120) body.street) _ h4 (λ street _ h5.
                accepted_then (required (bounded 1 20) body.number) _ h5 (λ number _ h6.
                  accepted_then (required (bounded 1 120) body.neighborhood) _ h6
                    (λ neighborhood _ h7.
                      accepted_then (required (bounded 1 120) body.city) _ h7 (λ city _ h8.
                        accepted_then (required check_state body.state) _ h8 (λ state _ h9.
                          accepted_then (required check_zip body.zip) _ h9 (λ zip _ h10.
                            subst (λ f. IsCnpj f.cnpj) (accept_inj h10)
                              (required-IsCnpj body.cnpj cnpj valid)))))))))))

  pub update_unit_request-GivesCnpj :
      (body : UnitBody) (request : UpdateUnitRequest)
      → update_unit_request p body ≡ accept request
      → GivesCnpj (update_input request).cnpj
  unfolding update_unit_request update_input
  update_unit_request-GivesCnpj body request h =
      accepted_then (refuse_other_keys p body.has_other_keys) _ h (λ refused _ h1.
        accepted_then (if_given (bounded 1 120) body.name) _ h1 (λ name _ h2.
          accepted_then (if_given (check_cnpj p) body.cnpj) _ h2 (λ cnpj valid h3.
            accepted_then (if_given (check_email p) body.email) _ h3 (λ email _ h4.
              accepted_then (if_given (bounded 1 20) body.phone) _ h4 (λ phone _ h5.
                accepted_then (if_given (bounded 1 120) body.street) _ h5 (λ street _ h6.
                  accepted_then (if_given (bounded 1 20) body.number) _ h6 (λ number _ h7.
                    accepted_then (if_given (bounded 1 120) body.neighborhood) _ h7
                      (λ neighborhood _ h8.
                        accepted_then (if_given (bounded 1 120) body.city) _ h8 (λ city _ h9.
                          accepted_then (if_given check_state body.state) _ h9 (λ state _ h10.
                            accepted_then (if_given check_zip body.zip) _ h10 (λ zip _ h11.
                              accepted_then (if_given accept body.is_active) _ h11
                                (λ is_active _ h12.
                                  subst (λ r. GivesCnpj (kwarg r.cnpj)) (accept_inj h12)
                                    (if_given-GivesCnpj body.cnpj cnpj valid)))))))))))))

-- ===== src/Billing/Validated.antt =====
-- The code that `validate_code` of app/services/discount_service.py gives back.
use kasb_o_kar_hoshmand.Base.{
  ℕ, ◌≡◌, subst, inl, inr, String, Bool, true, false, some, List, [], arith, Option-cases,
  where_rows, where_rows_pass, All,
}
use kasb_o_kar_hoshmand.Base.Texts.{same_text}
use kasb_o_kar_hoshmand.Base.Time.{Instant}
use kasb_o_kar_hoshmand.Models.{
  DiscountCode, Db, Result-cases, ok, scalar_one_or_none, scalar_one, scalar_empty,
}
use kasb_o_kar_hoshmand.Billing.Discount.{is_past, is_used_up, is_usage, get_by_code, validate_code}

scalar_some :
    {A : Type 0} (p : A → Bool) (xs : List A) {x : A}
    → scalar_one_or_none (where_rows p xs) ≡ ok (some x)
    → p x ≡ true
scalar_some p xs {x} e = (subst (All (λ y. p y ≡ true)) (scalar_one _ e) (where_rows_pass p xs)).0

module _ (strip_upper : String → String) where
  -- A code that is given has the text asked for, is active, has not expired, has uses left, and has
  -- not been used by the owner.
  pub validate_code_valid :
      (now : Instant) (raw_code : String) (owner_id : ℕ) (db : Db) {d : DiscountCode}
      → validate_code strip_upper now raw_code owner_id db ≡ ok (some d)
      → (same_text d.code (strip_upper raw_code) ≡ true)
        × (d.is_active ≡ true)
        × (is_past now d.expires_at ≡ false)
        × (is_used_up d.used_count d.max_uses ≡ false)
        × (where_rows (is_usage d.id owner_id) db.usages ≡ [])
  unfolding validate_code get_by_code
  validate_code_valid now raw_code owner_id db {d} e =
      elim (Result-cases (
        scalar_one_or_none
          (where_rows (λ c. same_text c.code (strip_upper raw_code)) db.discounts))) [
            | inl (found, asked) ↦ elim (Option-cases found) [
              | inl unknown ↦ absurd (ground (arith, asked, unknown))
              | inr (c, known) ↦
                  elim (Result-cases
                    (scalar_one_or_none (where_rows (is_usage c.id owner_id) db.usages))) [
                      | inl (usage, looked) ↦ elim (Option-cases usage) [
                        | inl unused ↦
                            let same : c ≡ d = ground (arith, asked, known, looked, unused) in
                            subst
                              (λ c.
                                (same_text c.code (strip_upper raw_code) ≡ true)
                                × (c.is_active ≡ true)
                                × (is_past now c.expires_at ≡ false)
                                × (is_used_up c.used_count c.max_uses ≡ false)
                                × (where_rows (is_usage c.id owner_id) db.usages ≡ []))
                              same
                              (
                                scalar_some (λ c. same_text c.code (strip_upper raw_code))
                                    db.discounts {x = c} (ground (arith, asked, known)),
                                ground (arith, asked, known),
                                ground (arith, asked, known),
                                ground (arith, asked, known),
                                scalar_empty _ (ground (arith, looked, unused)),
                              )
                        | inr (u, used) ↦ absurd (ground (arith, asked, known, looked, used))
                      ]
                      | inr (x, failed) ↦ absurd (ground (arith, asked, known, failed))
                    ]
            ]
            | inr (x, failed) ↦ absurd (ground (arith, failed))
          ]

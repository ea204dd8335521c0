-- ===== src/Billing/Discount.antt =====
-- app/services/discount_service.py: the discount codes and who has used them.
use mathlib.Core.List.{reverse}
use kasb_o_kar_hoshmand.Base.{
  ℕ, ◌+◌, ◌-◌, ◌/◌, String, Bool, true, false, not, ◌&&◌, Option, none, some, List, [], ◌∷◌, ◌++◌,
  ltb, leb, ◌==◌, if◌then◌else◌, where_rows, sort_on, head_of, is_some,
}
use kasb_o_kar_hoshmand.Base.Texts.{same_text}
use kasb_o_kar_hoshmand.Base.Time.{Instant}
use kasb_o_kar_hoshmand.Base.Table.{get_row, save, next_key}
use kasb_o_kar_hoshmand.Models.{
  DiscountCode-Keyed, DiscountCodeUsage-Keyed, DiscountCode, DiscountCodeUsage, DiscountType,
  percent, fixed, Db, Result, ok, raised, integrity_error, ◌>>=◌, scalar_one_or_none,
}

-- the codes from the newest
unfoldable pub get_all_codes : Db → List DiscountCode
get_all_codes db = reverse (sort_on (λ d. d.id) db.discounts)

-- `expires_at is not None and expires_at < now`
abbrev pub is_past : Instant → Option Instant → Bool
is_past now none = false
is_past now (some t) = ltb t now

-- `max_uses is not None and used_count >= max_uses`
abbrev pub is_used_up : ℕ → Option ℕ → Bool
is_used_up used none = false
is_used_up used (some most) = leb most used

-- a use of the code by the owner
abbrev pub is_usage : ℕ → ℕ → DiscountCodeUsage → Bool
is_usage code_id owner_id u = u.discount_code_id == code_id && u.shop_owner_id == owner_id

-- `strip_upper` is `code.strip().upper()`, by Python's Unicode tables
module _ (strip_upper : String → String) where
  unfoldable pub get_by_code : String → Db → Result (Option DiscountCode)
  get_by_code code db =
      scalar_one_or_none (where_rows (λ d. same_text d.code (strip_upper code)) db.discounts)

  unfoldable pub validate_code : Instant → String → ℕ → Db → Result (Option DiscountCode)
  validate_code now raw_code owner_id db = do
    found ← get_by_code raw_code db
    elim found [
      | none ↦ ok none
      | some d ↦
          if not d.is_active
          then ok none
          else if is_past now d.expires_at
          then ok none
          else if is_used_up d.used_count d.max_uses
          then ok none
          else (do
            usage ← scalar_one_or_none (where_rows (is_usage d.id owner_id) db.usages)
            if is_some usage then ok none else ok (some d))
    ]

  -- a second row with the code breaks `UNIQUE (code)`
  unfoldable pub create_code :
      String → DiscountType → ℕ → Option ℕ → Option Instant → Db → Result (DiscountCode × Db)
  create_code code type value max_uses expires_at db =
      let d : DiscountCode = record {
        id = next_key db.discounts;
        code = strip_upper code;
        type = type;
        value = value;
        max_uses = max_uses;
        used_count = 0;
        expires_at = expires_at;
        is_active = true;
      } in
      if is_some (head_of (where_rows (λ e. same_text e.code d.code) db.discounts))
      then raised integrity_error
      else ok (d, record db { discounts = db.discounts ++ d ∷ [] })

-- `part_of base value` is `int(base * float(value) / 100)`, by the arithmetic of doubles; `value`
-- is in hundredths. `max(price, 0)` is the difference on the naturals.
module _ (part_of : ℕ → ℕ → ℕ) where
  unfoldable pub apply_discount : ℕ → DiscountCode → ℕ
  apply_discount base_amount d = elim d.type [
    | percent ↦ base_amount - part_of base_amount d.value
    | fixed ↦ base_amount - d.value / 100
  ]

unfoldable pub toggle_code_active : ℕ → Db → Option DiscountCode × Db
toggle_code_active code_id db = elim (get_row code_id db.discounts) [
  | none ↦ (none, db)
  | some d ↦
      let d1 = record d { is_active = not d.is_active } in
      (some d1, record db { discounts = save d1 db.discounts })
]

-- `discount.used_count += 1`, where the code is found
unfoldable pub count_use : ℕ → Db → Db
count_use code_id db = elim (get_row code_id db.discounts) [
  | none ↦ db
  | some d ↦ record db {
    discounts = save (record d { used_count = d.used_count + 1 }) db.discounts;
  }
]

-- a second use of a code by an owner breaks `UNIQUE (discount_code_id, shop_owner_id)`
unfoldable pub record_usage : ℕ → ℕ → ℕ → Db → Result Db
unfolding count_use
record_usage code_id owner_id payment_id db =
    if is_some (head_of (where_rows (is_usage code_id owner_id) db.usages))
    then raised integrity_error
    else ok (
        count_use code_id (record db {
          usages =
              db.usages
              ++ record {
                id = next_key db.usages;
                discount_code_id = code_id;
                shop_owner_id = owner_id;
                payment_id = payment_id;
              }
                ∷ [];
        }))

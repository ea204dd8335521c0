-- ===== src/Platform/Plans.antt =====
-- app/services/subscription_plan_service.py: the plans that an owner can buy.
use kasb_o_kar_hoshmand.Base.{
  ℕ, Bool, true, not, ◌||◌, Option, none, some, List, [], ◌∷◌, ◌++◌, ◌==◌, where_rows, sort_on,
}
use kasb_o_kar_hoshmand.Base.Table.{get_row, save, next_key}
use kasb_o_kar_hoshmand.Models.{
  SubscriptionPlan-Keyed, SubscriptionPlan, Db, Result, ok, raised, integrity_error,
  scalar_one_or_none,
}

unfoldable pub get_all_plans : Bool → Db → List SubscriptionPlan
get_all_plans active_only db =
    where_rows (λ p. not active_only || p.is_active) (sort_on (λ p. p.duration_months) db.plans)

unfoldable pub get_by_id : ℕ → Db → Option SubscriptionPlan
get_by_id plan_id db = get_row plan_id db.plans

abbrev pub lasts : ℕ → SubscriptionPlan → Bool
lasts duration_months p = p.duration_months == duration_months

unfoldable pub get_by_duration : ℕ → Db → Result (Option SubscriptionPlan)
get_by_duration duration_months db =
    scalar_one_or_none (where_rows (lasts duration_months) db.plans)

-- the column of durations is unique
unfoldable pub create_plan : ℕ → ℕ → Db → Result (SubscriptionPlan × Db)
create_plan duration_months price_toman db = elim (where_rows (lasts duration_months) db.plans) [
  | [] ↦
      let p : SubscriptionPlan = record {
        id = next_key db.plans;
        duration_months = duration_months;
        price_toman = price_toman;
        is_active = true;
      } in
      ok (p, record db { plans = db.plans ++ p ∷ [] })
  | other ∷ rest ↦ raised integrity_error
]

unfoldable pub update_price : SubscriptionPlan → ℕ → Db → Db
update_price plan new_price_toman db = record db {
  plans = save (record plan { price_toman = new_price_toman }) db.plans;
}

unfoldable pub toggle_plan_active : ℕ → Db → Option SubscriptionPlan × Db
toggle_plan_active plan_id db = elim (get_row plan_id db.plans) [
  | none ↦ (none, db)
  | some p ↦
      let p1 = record p { is_active = not p.is_active } in
      (some p1, record db { plans = save p1 db.plans })
]

-- ===== src/Billing/Renewal.antt =====
-- The end of the period that `purchase_or_renew` of app/services/subscription_service.py sells.
use mathlib.Core.List.{reverse, reverse-append}
use kasb_o_kar_hoshmand.Base.{
  ℕ, max, Option, none, ◌+◌, ◌≤◌, ◌≡◌, refl, ap, ◌∙◌, inl, inr, Bool, true, false, some, List, [],
  ◌∷◌, ◌++◌, arith, leb, Option-cases, ◌==◌, where_rows, sort_on, insert_on, head_of, All,
  All-where_rows,
}
use kasb_o_kar_hoshmand.Base.Time.{Instant, hours}
use kasb_o_kar_hoshmand.Base.Table.{next_key}
use kasb_o_kar_hoshmand.Models.{SubscriptionStatus, Subscription-Keyed, Subscription, Db, ok}
use kasb_o_kar_hoshmand.Settings.{get_admin_settings}
use kasb_o_kar_hoshmand.Billing.Subscribe.{
  get_latest_subscription_by_owner_id, new_subscription, add_subscription, start_of,
  purchase_or_renew, is_shop_usable,
}

module _ {A : Type 0} (f : A → ℕ) where
  insert_on-append :
      (x last : A) (xs : List A)
      → f x ≤ f last
      → insert_on f x (xs ++ last ∷ []) ≡ insert_on f x xs ++ last ∷ []
  insert_on-append x last [] h = ground arith
  insert_on-append x last (y ∷ ys) h = ground (arith, insert_on-append x last ys h)

  -- a row above the others sorts last
  sort_on-append :
      (last : A) (xs : List A)
      → All (λ x. f x ≤ f last) xs
      → sort_on f (xs ++ last ∷ []) ≡ sort_on f xs ++ last ∷ []
  sort_on-append last [] h = refl
  sort_on-append last (x ∷ xs) h =
      rw (sort_on-append last xs h.1) (insert_on-append x last (sort_on f xs) h.0)

where_rows-append :
    {A : Type 0} (p : A → Bool) (xs : List A) (last : A)
    → p last ≡ true
    → where_rows p (xs ++ last ∷ []) ≡ where_rows p xs ++ last ∷ []
where_rows-append p [] last h = ground (arith, h)
where_rows-append p (x ∷ xs) last h = ground (arith, where_rows-append p xs last h)

head_of-reverse : {A : Type 0} (xs : List A) (x : A) → head_of (reverse (xs ++ x ∷ [])) ≡ some x
head_of-reverse xs x = rw (reverse-append xs (x ∷ [])) refl

below : (n : ℕ) (xs : List Subscription) → next_key xs ≤ n → All (λ s. s.id ≤ n) xs
below n [] h = tt
below n (x ∷ xs) h = (omega arith, below n xs (omega arith))

-- A period added under the next key is the latest of its owner.
added-latest :
    (s : Subscription) (db : Db)
    → s.id ≡ next_key db.subscriptions
    → get_latest_subscription_by_owner_id s.shop_owner_id (add_subscription s db).1 ≡ some s
unfolding get_latest_subscription_by_owner_id add_subscription
added-latest s db e =
    let own = λ (x : Subscription). x.shop_owner_id == s.shop_owner_id in
    rw (where_rows-append own db.subscriptions s (ground arith)) (
      rw
        (sort_on-append (λ x. x.id) s (where_rows own db.subscriptions)
          (All-where_rows (λ x. x.id ≤ s.id) own db.subscriptions
            (below s.id db.subscriptions (omega arith))))
        (head_of-reverse (sort_on (λ x. x.id) (where_rows own db.subscriptions)) s))

-- when the earlier period ends, or at once if there is none
abbrev pub end_of : Option Subscription → Instant
end_of none = 0
end_of (some s) = s.end_date

-- A period starts now, or at the end of the latest one if that is later.
start_of-max :
    (now : Instant) (owner_id : ℕ) (db : Db)
    → start_of now owner_id db ≡ max now (end_of (get_latest_subscription_by_owner_id owner_id db))
unfolding start_of
start_of-max now owner_id db =
    elim (Option-cases (get_latest_subscription_by_owner_id owner_id db)) [
      | inl fresh ↦ ground (arith, fresh)
      | inr (t, held) ↦ ground (arith, held)
    ]

settings-latest :
    (owner_id : ℕ) (db : Db)
    → get_latest_subscription_by_owner_id owner_id (get_admin_settings db).1
      ≡ get_latest_subscription_by_owner_id owner_id db
unfolding get_latest_subscription_by_owner_id get_admin_settings
settings-latest owner_id db = elim (Option-cases db.settings) [
  | inl unset ↦ ground (arith, unset)
  | inr (row, held) ↦ ground (arith, held)
]

-- A shop is usable up to the end of the latest period and the hours of grace.
usable_until :
    (later : Instant) (owner_id : ℕ) (db : Db) {s : Subscription}
    → get_latest_subscription_by_owner_id owner_id db ≡ some s
    → (is_shop_usable later owner_id db).0
      ≡ leb later (s.end_date + hours (get_admin_settings db).0.grace_period_hours)
unfolding is_shop_usable
usable_until later owner_id db {s} held = ground (arith, settings-latest owner_id db, held)

added-settings :
    (s : Subscription) (db : Db)
    → (get_admin_settings (add_subscription s db).1).0 ≡ (get_admin_settings db).0
unfolding add_subscription get_admin_settings
added-settings s db = ground arith

module _ (plus_months : Instant → ℕ → Instant) where
  -- A period of subscription that an owner buys becomes the owner's latest. It starts now, or at the
  -- end of the earlier period if that is later, is active, and lasts the months bought. The shop is
  -- usable up to its end and the hours of grace after it, and no longer.
  pub purchase_or_renew_extends :
      (now later : Instant) (owner_id months : ℕ) (db : Db)
      → (s : Subscription) × ((db' : Db) × ((purchase_or_renew plus_months now owner_id
                (some months)
                db
              ≡ ok (s, db'))
            × (get_latest_subscription_by_owner_id owner_id db' ≡ some s)
            × (s.start_date ≡ max now (end_of (get_latest_subscription_by_owner_id owner_id db)))
            × (s.status ≡ SubscriptionStatus.active)
            × (s.end_date ≡ plus_months s.start_date months)
            × ((is_shop_usable later owner_id db').0
                ≡ leb later (s.end_date + hours (get_admin_settings db).0.grace_period_hours))))
  unfolding purchase_or_renew new_subscription add_subscription
  purchase_or_renew_extends now later owner_id months db =
      let start = start_of now owner_id db in
      let s =
        new_subscription (next_key db.subscriptions) owner_id SubscriptionStatus.active months false
          start (plus_months start months) in
      (
        s,
        (
          (add_subscription s db).1,
          (
            refl,
            added-latest s db refl,
            start_of-max now owner_id db,
            refl,
            refl,
            usable_until later owner_id (add_subscription s db).1 (added-latest s db refl)
                ∙ ap (λ a. leb later (s.end_date + hours a.grace_period_hours))
                    (added-settings s db),
          ),
        ),
      )

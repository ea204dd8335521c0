-- ===== src/Grace/Moved.antt =====
-- A whole round of the job of app/services/grace_period_service.py.
use kasb_o_kar_hoshmand.Base.{
  ℕ, ◌+◌, ◌≡◌, refl, inl, inr, Bool, ◌&&◌, none, some, List, [], ◌∷◌, ◌==◌, arith, leb, is_some,
  if◌then◌else◌, where_rows, Bool-cases, Option-cases, All-where_rows,
}
use kasb_o_kar_hoshmand.Base.Time.{Instant, hours}
use kasb_o_kar_hoshmand.Base.Table.{
  get_row, save, Unique, Rows, get_row-save, get_row-where_rows, where_rows-Unique, Rows-save,
  Rows-self,
}
use kasb_o_kar_hoshmand.Models.{
  ShopOwner-Keyed, Subscription-Keyed, Subscription, SubscriptionStatus, grace, expired, Db,
  Result-cases, ok,
}
use kasb_o_kar_hoshmand.Settings.{get_admin_settings}
use kasb_o_kar_hoshmand.Billing.Subscribe.{get_latest_subscription_by_owner_id}
use kasb_o_kar_hoshmand.Grace.{
  is_latest, is_running, is_in_grace, remind_grace, move_one, move_each, process_grace_transitions,
  reminded_keeps,
}

-- The status that a subscription should have after a round at that instant: one that runs goes into
-- grace at its end, and one in grace is over when the hours of grace have passed after its end.
abbrev pub status_after : Instant → ℕ → Subscription → SubscriptionStatus
status_after now grace_hours s =
    if is_running s.status && leb s.end_date now
    then grace
    else if is_in_grace s.status && leb (s.end_date + hours grace_hours) now
    then expired
    else s.status

save_same : (s : Subscription) (ss : List Subscription) → get_row s.id ss ≡ some s → save s ss ≡ ss
save_same s [] e = refl
save_same s (x ∷ ss) e = elim (Bool-cases (x.id == s.id)) [
  | inl here ↦ ground (arith, here, e)
  | inr there ↦ ground (arith, there, e, save_same s ss)
]

module _ (delivered : ℕ → Bool) (now : Instant) (grace_hours : ℕ) where
  -- one round of the loop saves the subscription with the status that it should have
  move_one-saves :
      (s : Subscription) (db : Db) {db' : Db}
      → get_row s.id db.subscriptions ≡ some s
      → move_one delivered now grace_hours s db ≡ ok db'
      → (s' : Subscription) × ((s'.id ≡ s.id)
          × (s'.end_date ≡ s.end_date)
          × (s'.status ≡ status_after now grace_hours s)
          × (db'.subscriptions ≡ save s' db.subscriptions))
  unfolding move_one
  move_one-saves s db {db'} found e =
      elim (Bool-cases (is_running s.status && leb s.end_date now)) [
        | inl due ↦ elim (Result-cases (remind_grace delivered (record s { status = grace }) db)) [
          | inr (x, failed) ↦ absurd (ground (arith, due, failed))
          | inl (s1, told) ↦
              let kept = reminded_keeps delivered (record s { status = grace }) db told in
              (s1, (kept.0, kept.2, ground (arith, due, kept.1), ground (arith, due, told, e)))
        ]
        | inr calm ↦
            elim (Bool-cases (is_in_grace s.status && leb (s.end_date + hours grace_hours) now)) [
              | inl over ↦ (
                record s { status = expired },
                (refl, refl, ground (arith, calm, over), ground (arith, calm, over, e)),
              )
              | inr quiet ↦ (
                s,
                (
                  refl,
                  refl,
                  ground (arith, calm, quiet),
                  ground (arith, calm, quiet, e, save_same s db.subscriptions found),
                ),
              )
            ]
      ]

  -- The row of a key after the loop: moved, if the loop meets it.
  abbrev Moved : Bool → Subscription → ℕ → Db → Type 0
  Moved met s i db' =
      (s' : Subscription) × ((get_row i db'.subscriptions ≡ some s')
        × (s'.end_date ≡ s.end_date)
        × (s'.status ≡ (if met then status_after now grace_hours s else s.status)))

  move_each-Moved :
      (i : ℕ) (ss : List Subscription) (db : Db) {s : Subscription} {db' : Db}
      → Unique ss
      → Rows db.subscriptions ss
      → get_row i db.subscriptions ≡ some s
      → move_each delivered now grace_hours ss db ≡ ok db'
      → Moved (is_some (get_row i ss)) s i db'
  unfolding move_each
  move_each-Moved i [] db {s} {db'} u rows found e = (s, (ground (arith, found, e), refl, refl))
  move_each-Moved i (q ∷ qs) db {s} {db'} u rows found e =
      elim (Result-cases (move_one delivered now grace_hours q db)) [
        | inr (x, failed) ↦ absurd (ground (arith, failed, e))
        | inl (db1, moved) ↦
            let (q', (key, ends, status, saved)) = move_one-saves q db {db' = db1} rows.0 moved in
            let rows1 : Rows db1.subscriptions qs =
              rw saved (Rows-save q' db.subscriptions qs (rw key u.0) rows.1) in
            let later : move_each delivered now grace_hours qs db1 ≡ ok db' =
              ground (arith, moved, e) in
            elim (Bool-cases (q.id == i)) [
              | inl here ↦
                  let same : q ≡ s = ground (arith, here, rows.0, found) in
                  let at : get_row i db1.subscriptions ≡ some q' =
                    ground (arith, saved, here, key, found, get_row-save i q' db.subscriptions) in
                  let gone : get_row i qs ≡ none = ground (arith, here, u.0) in
                  let (s', (row, end', status')) =
                    move_each-Moved i qs db1 {s = q'} {db' = db'} u.1 rows1 at later in
                  (
                    s',
                    (
                      row,
                      ground (arith, end', ends, same),
                      ground (arith, here, gone, status', status, same),
                    ),
                  )
              | inr there ↦
                  let at : get_row i db1.subscriptions ≡ some s =
                    ground (arith, saved, there, key, found, get_row-save i q' db.subscriptions) in
                  let (s', (row, end', status')) =
                    move_each-Moved i qs db1 {s = s} {db' = db'} u.1 rows1 at later in
                  (s', (row, end', ground (arith, there, status')))
            ]
      ]

settings-subscriptions : (db : Db) → (get_admin_settings db).1.subscriptions ≡ db.subscriptions
unfolding get_admin_settings
settings-subscriptions db = ground arith

settings-is_latest :
    (db : Db) (s : Subscription) → is_latest (get_admin_settings db).1 s ≡ is_latest db s
unfolding is_latest get_latest_subscription_by_owner_id get_admin_settings
settings-is_latest db s = elim (Option-cases db.settings) [
  | inl unset ↦ ground (arith, unset)
  | inr (row, held) ↦ ground (arith, held)
]

-- whether a query selects the row of a key
met_if :
    (p : Subscription → Bool) (i : ℕ) (ss : List Subscription) {s : Subscription}
    → Unique ss
    → get_row i ss ≡ some s
    → is_some (get_row i (where_rows p ss)) ≡ p s
met_if p i [] {s} u e = absurd (ground (arith, e))
met_if p i (x ∷ ss) {s} u e = elim (Bool-cases (x.id == i)) [
  | inl here ↦
      let same : x ≡ s = ground (arith, here, e) in
      let gone : get_row i (where_rows p ss) ≡ none =
        get_row-where_rows i p ss (ground (arith, here, u.0)) in
      ground (arith, here, same, gone)
  | inr there ↦ ground (arith, there, e, met_if p i ss {s = s} u.1)
]

-- After a round of the job that returns, every subscription is there with its end as before. If it was
-- the latest of its owner, it has the status that the instant asks for: one that ran and has come to its
-- end is in grace, and one that was in grace is expired once the platform's hours of grace have passed
-- after its end. Every other subscription keeps its status. The ids of the subscriptions are unique.
pub process_grace_transitions_exact :
    (delivered : ℕ → Bool) (now : Instant) (i : ℕ) (db : Db) {s : Subscription} {db' : Db}
    → Unique db.subscriptions
    → get_row i db.subscriptions ≡ some s
    → process_grace_transitions delivered now db ≡ ok db'
    → (s' : Subscription) × ((get_row i db'.subscriptions ≡ some s')
        × (s'.end_date ≡ s.end_date)
        × (s'.status ≡ (
            if is_latest db s
            then status_after now (get_admin_settings db).0.grace_period_hours s
            else s.status)))
unfolding process_grace_transitions
process_grace_transitions_exact delivered now i db {s} {db'} u found e =
    let (settings, db1) = get_admin_settings db in
    let p = is_latest db1 in
    let u1 : Unique db1.subscriptions = rw (settings-subscriptions db) u in
    let found1 : get_row i db1.subscriptions ≡ some s = rw (settings-subscriptions db) found in
    let (s', (row, ends, status)) =
      move_each-Moved delivered now settings.grace_period_hours i (where_rows p db1.subscriptions)
        db1 {s = s} {db' = db'} (where_rows-Unique p db1.subscriptions u1)
        (All-where_rows _ p db1.subscriptions (Rows-self db1.subscriptions u1)) found1 e in
    (
      s',
      (
        row,
        ends,
        ground (
          arith,
          status,
          met_if p i db1.subscriptions {s = s} u1 found1,
          settings-is_latest db s,
        ),
      ),
    )

-- ===== src/Answer/Paid.antt =====
-- What the payment for an answer, in app/bots/shop_bot/handlers/customer.py, takes from the owner.
use kasb_o_kar_hoshmand.Base.{ℕ, ◌≡◌, ◌⊎◌, refl, ◌∙◌, inl, inr, none, some, arith, Bool-cases}
use kasb_o_kar_hoshmand.Base.Int.{ℤ, pos, ◌-ℤ◌, ◌<ℤ◌, leb_ℤ, ltb_ℤ, int_laws}
use kasb_o_kar_hoshmand.Base.Time.{Instant, hours}
use kasb_o_kar_hoshmand.Base.Table.{get_row, get_row-save, get_row-key}
use kasb_o_kar_hoshmand.Models.{ShopOwner-Keyed, AdminSettings, ShopOwner, chat_message, Db, ok}
use kasb_o_kar_hoshmand.Wallet.Notify.{
  empty_renotify_hours, low_balance_renotify_hours, is_due, try_claim_empty_notification,
  try_claim_low_balance_notification,
}
use kasb_o_kar_hoshmand.Wallet.Invariant.{IsConsistent}
use kasb_o_kar_hoshmand.Wallet.Invariant.Deducted.{deduct_exact}
use kasb_o_kar_hoshmand.Billing.Frame.{SameWallets}
use kasb_o_kar_hoshmand.Access.{deduct_and_notify, notify_owner}

-- The balance of the owner falls by the amount; or it is less than the amount, and the charges and the
-- ledger are as before.
abbrev pub Pays : ℕ → ShopOwner → ℕ → Db → Db → Type 0
Pays i o amount db db' =
    ((o.wallet_balance_toman <ℤ pos amount)
      × (db'.charges ≡ db.charges)
      × (db'.transactions ≡ db.transactions))
    ⊎ ((o' : ShopOwner) × ((get_row i db'.owners ≡ some o')
          × (o'.wallet_balance_toman ≡ o.wallet_balance_toman -ℤ pos amount)))

-- What leaves the charges, the ledger and the balance of the owner alone.
abbrev KeepsBalance : ℕ → ShopOwner → Db → Db → Type 0
KeepsBalance i o db db' =
    (db'.charges ≡ db.charges)
    × (db'.transactions ≡ db.transactions)
    × ((o' : ShopOwner) × ((get_row i db'.owners ≡ some o')
          × (o'.wallet_balance_toman ≡ o.wallet_balance_toman)))

claim_empty-KeepsBalance :
    (now : Instant) (i : ℕ) (db : Db) {o : ShopOwner}
    → get_row i db.owners ≡ some o
    → KeepsBalance i o db (try_claim_empty_notification now i db).1
unfolding try_claim_empty_notification
claim_empty-KeepsBalance now i db {o} found =
    elim (Bool-cases (is_due now (hours empty_renotify_hours) o.wallet_empty_notified_at)) [
      | inl due ↦
          let o' = record o { wallet_empty_notified_at = some now } in
          (
            ground (arith, found, due),
            ground (arith, found, due),
            (
              o',
              (
                ground
                    (arith, found, due, get_row-save i o' db.owners, get_row-key i db.owners found),
                refl,
              ),
            ),
          )
      | inr early ↦ (
        ground (arith, found, early),
        ground (arith, found, early),
        (o, (ground (arith, found, early), refl)),
      )
    ]

claim_low-KeepsBalance :
    (now : Instant) (i : ℕ) (db : Db) {o : ShopOwner}
    → get_row i db.owners ≡ some o
    → KeepsBalance i o db (try_claim_low_balance_notification now i db).1
unfolding try_claim_low_balance_notification
claim_low-KeepsBalance now i db {o} found =
    elim (Bool-cases
      (is_due now (hours low_balance_renotify_hours) o.wallet_low_balance_notified_at)) [
        | inl due ↦
            let o' = record o { wallet_low_balance_notified_at = some now } in
            (
              ground (arith, found, due),
              ground (arith, found, due),
              (
                o',
                (
                  ground (
                    arith,
                    found,
                    due,
                    get_row-save i o' db.owners,
                    get_row-key i db.owners found,
                  ),
                  refl,
                ),
              ),
            )
        | inr early ↦ (
          ground (arith, found, early),
          ground (arith, found, early),
          (o, (ground (arith, found, early), refl)),
        )
      ]

notify_owner-KeepsBalance :
    (now : Instant) (settings : AdminSettings) (i : ℕ) (db : Db) {o : ShopOwner}
    → get_row i db.owners ≡ some o
    → KeepsBalance i o db (notify_owner now settings i db)
unfolding notify_owner
notify_owner-KeepsBalance now settings i db {o} found =
    rw (found, notify_owner)
      (elim (Bool-cases (leb_ℤ o.wallet_balance_toman (pos 0))) [
        | inl empty ↦ rw empty (claim_empty-KeepsBalance now i db {o = o} found)
        | inr left ↦
            rw left
              (elim (Bool-cases
                (ltb_ℤ o.wallet_balance_toman (pos settings.wallet_low_balance_warning_toman))) [
                  | inl low ↦ rw low (claim_low-KeepsBalance now i db {o = o} found)
                  | inr enough ↦ rw enough (refl, refl, (o, (found, refl)))
                ])
      ])

minus_nothing : (b : ℤ) (n : ℕ) → pos n <ℤ pos 1 → b ≡ b -ℤ pos n
minus_nothing b n h = omega int_laws

-- The owner is charged the amount, or the balance is less.
pub pays :
    (now : Instant) (settings : AdminSettings) (i amount : ℕ) (db db1 : Db) {o : ShopOwner}
    {db' : Db}
    → IsConsistent db
    → SameWallets db db1
    → get_row i db.owners ≡ some o
    → deduct_and_notify now settings i amount chat_message db1 ≡ ok db'
    → Pays i o amount db db'
unfolding deduct_and_notify
pays now settings i amount db db1 {o} {db'} h kept found e =
    let consistent : IsConsistent db1 = record {
      unique = rw kept.1 h.unique;
      cached = λ j. rw kept.0 (rw kept.1 (h.cached j));
    } in
    let found1 : get_row i db1.owners ≡ some o = rw kept.0 found in
    elim (deduct_exact i (pos amount) chat_message none db1 {o = o} consistent found1) [
      | inl (nothing, same) ↦
          let (charges, entries, (o', (row, balance))) =
            notify_owner-KeepsBalance now settings i db1 {o = o} found1 in
          inr (
            o',
            (
              ground (arith, same, row, e),
              balance ∙ minus_nothing o.wallet_balance_toman amount (omega (arith, nothing)),
            ),
          )
      | inr (inl (short, same)) ↦
          let (charges, entries, rest) =
            notify_owner-KeepsBalance now settings i db1 {o = o} found1 in
          inl (
            short,
            ground (arith, same, charges, e) ∙ kept.1,
            ground (arith, same, entries, e) ∙ kept.2,
          )
      | inr (inr (positive, enough, (db2, taken, row2))) ↦
          let o2 = record o { wallet_balance_toman = o.wallet_balance_toman -ℤ pos amount } in
          let (charges, entries, (o', (row, balance))) =
            notify_owner-KeepsBalance now settings i db2 {o = o2} row2 in
          inr (o', (ground (arith, taken, row, e), balance))
    ]

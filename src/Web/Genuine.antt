-- ===== src/Web/Genuine.antt =====
-- The callbacks of the gateways in app/main.py: what they credit, and what a repeated one does.
use kasb_o_kar_hoshmand.Base.{
  ℕ, ◌≡◌, ◌⊎◌, refl, ap, sym, ◌∙◌, subst, inl, inr, String, true, Option, none, some, [], ◌∷◌,
  arith, All, All-where_rows, where_rows, where_rows_pass, Bool-cases, Option-cases,
}
use kasb_o_kar_hoshmand.Base.Texts.{same_text}
use kasb_o_kar_hoshmand.Base.Time.{Instant}
use kasb_o_kar_hoshmand.Base.Table.{get_row, save, Unique, Rows-self}
use kasb_o_kar_hoshmand.Base.Found.{where_rows-save}
use kasb_o_kar_hoshmand.Models.{
  ShopOwner-Keyed, Payment-Keyed, Payment, PaymentStatus, Db, Result, Result-cases, ok, raised,
  scalar_one,
}
use kasb_o_kar_hoshmand.Settings.{get_admin_settings}
use kasb_o_kar_hoshmand.Billing.Frame.{SameWallets, settings-SameWallets}
use kasb_o_kar_hoshmand.Billing.Reward.{RewardInfo}
use kasb_o_kar_hoshmand.Billing.Pay.{is_pending, is_text, get_by_zarinpal_authority}
use kasb_o_kar_hoshmand.Billing.Approve.{Effect, settle, approve_zarinpal_payment}
use kasb_o_kar_hoshmand.Billing.Settled.{settle-IsSound}
use kasb_o_kar_hoshmand.Web.Payments.{failed, conclude, confirm_zarinpal, zarinpal_callback}

-- The payment of an authority as it is approved.
abbrev pub paid_by : String → Instant → Payment → Payment
paid_by ref_id now p = record p {
  status = PaymentStatus.approved;
  zarinpal_ref_id = some ref_id;
  reviewed_at = some now;
}

-- The end of a session commits what it did, or nothing.
conclude-cases :
    (p : Payment) (db : Db) (r : Result ((Effect × Option RewardInfo) × Db))
    → ((conclude p db r).1 ≡ db)
      ⊎ ((x : Effect × Option RewardInfo) × (r ≡ ok (x, (conclude p db r).1)))
unfolding conclude
conclude-cases p db (raised e) = inl refl
conclude-cases p db (ok ((effect, info), db1)) =
    elim (Option-cases (get_row p.shop_owner_id db1.owners)) [
      | inl missing ↦ inl (rw (missing, conclude))
      | inr (o, found) ↦ inr ((effect, info), rw (found, conclude))
    ]

settings-payments : (db : Db) → (get_admin_settings db).1.payments ≡ db.payments
unfolding get_admin_settings
settings-payments db = ground arith

module _ (plus_months : Instant → ℕ → Instant)
    (verify : Option String → ℕ → String → Option String) where
  -- Either no wallet and no payment changed, or the pending payment of the authority was confirmed by
  -- the gateway, for its amount, and is now the approved one.
  abbrev pub Genuine : Instant → String → Db → Db → Type 0
  Genuine now authority db db' =
      (SameWallets db db' × (db'.payments ≡ db.payments))
      ⊎ ((p : Payment) × (ref_id : String) × ((get_by_zarinpal_authority authority db ≡ ok (some p))
            × (is_pending p.status ≡ true)
            × (verify (get_admin_settings db).0.zarinpal_merchant_id p.final_amount authority
                ≡ some ref_id)
            × (db'.payments ≡ save (paid_by ref_id now p) db.payments)))

  confirm_zarinpal-Genuine :
      (now : Instant) (authority : String) (p : Payment) (db : Db)
      → get_by_zarinpal_authority authority db ≡ ok (some p)
      → is_pending p.status ≡ true
      → Genuine now authority db (confirm_zarinpal plus_months verify now authority p db).1
  unfolding confirm_zarinpal approve_zarinpal_payment
  confirm_zarinpal-Genuine now authority p db found pending =
      let (settings, db1) = get_admin_settings db in
      elim (Option-cases
        (verify (get_admin_settings db).0.zarinpal_merchant_id p.final_amount authority)) [
          | inl refused ↦
              rw (refused, confirm_zarinpal) (inl (settings-SameWallets db, settings-payments db))
          | inr (ref_id, confirmed) ↦
              rw (confirmed, confirm_zarinpal)
                (elim (conclude-cases p db
                  (settle plus_months now p (paid_by ref_id now p) (get_admin_settings db).1)) [
                    | inl nothing ↦ rw nothing (inl ((refl, refl, refl), refl))
                    | inr (x, done) ↦ inr (
                      p,
                      ref_id,
                      (
                        found,
                        pending,
                        confirmed,
                        (settle-IsSound plus_months now p (paid_by ref_id now p)
                              (get_admin_settings db).1 {x = x} done).1
                            ∙ ap (save (paid_by ref_id now p)) (settings-payments db),
                      ),
                    )
                  ])
        ]

  -- A callback changes nothing, or confirms the pending payment of the authority.
  zarinpal_callback-cases :
      (now : Instant) (authority status : String) (db : Db)
      → let called = zarinpal_callback plus_months verify now authority status db in
        (called.1 ≡ db)
        ⊎ ((p : Payment) × ((get_by_zarinpal_authority authority db ≡ ok (some p))
              × (is_pending p.status ≡ true)
              × (called ≡ confirm_zarinpal plus_months verify now authority p db)))
  unfolding zarinpal_callback
  zarinpal_callback-cases now authority status db = elim (Bool-cases (same_text status "OK")) [
    | inr aborted ↦ inl (rw aborted refl)
    | inl done ↦ elim (Result-cases (get_by_zarinpal_authority authority db)) [
      | inr (x, stopped) ↦ inl (rw (done, stopped) refl)
      | inl (none, asked) ↦ inl (rw (done, asked) refl)
      | inl (some p, asked) ↦ elim (Bool-cases (is_pending p.status)) [
        | inl pending ↦ inr (p, (asked, pending, simp (done, asked, pending) refl))
        | inr settled ↦ inl (simp (done, asked, settled) refl)
      ]
    ]
  ]

  -- Whatever the callback of Zarinpal answers: either no wallet and no payment changed, or the pending
  -- payment of the authority was confirmed by the gateway, for its amount, and is the approved one.
  pub zarinpal_callback-Genuine :
      (now : Instant) (authority status : String) (db : Db)
      → Genuine now authority db (zarinpal_callback plus_months verify now authority status db).1
  zarinpal_callback-Genuine now authority status db =
      elim (zarinpal_callback-cases now authority status db) [
        | inl same ↦ subst (Genuine now authority db) (sym same) (inl ((refl, refl, refl), refl))
        | inr (p, (asked, pending, same)) ↦
            subst (λ r. Genuine now authority db r.1) (sym same)
              (confirm_zarinpal-Genuine now authority p db asked pending)
      ]

  -- the approved payment is the one of its authority
  get_by_zarinpal_authority-save :
      (now : Instant) (authority ref_id : String) (p : Payment) (db db' : Db)
      → Unique db.payments
      → get_by_zarinpal_authority authority db ≡ ok (some p)
      → db'.payments ≡ save (paid_by ref_id now p) db.payments
      → get_by_zarinpal_authority authority db' ≡ ok (some (paid_by ref_id now p))
  unfolding get_by_zarinpal_authority
  get_by_zarinpal_authority-save now authority ref_id p db db' u asked saved =
      let selects = λ (q : Payment). is_text authority q.zarinpal_authority in
      let alone : where_rows selects db.payments ≡ p ∷ [] = scalar_one _ asked in
      let passed : selects p ≡ true =
        (subst (All (λ q. selects q ≡ true)) alone (where_rows_pass selects db.payments)).0 in
      let row : get_row p.id db.payments ≡ some p =
        (subst (All (λ q. get_row q.id db.payments ≡ some q)) alone (
          All-where_rows (λ q. get_row q.id db.payments ≡ some q) selects db.payments
            (Rows-self db.payments u))).0 in
      rw saved (
        rw
          (where_rows-save selects p (paid_by ref_id now p) db.payments row refl passed passed
            alone)
          refl)

  -- A callback of Zarinpal that changes a wallet or a payment does so once: the next one for the same
  -- authority, at any time and with any status, answers that the payment failed and changes nothing.
  -- The keys of the payments are unique.
  pub zarinpal_callback_once :
      (now later : Instant) (authority status again : String) (db : Db)
      → Unique db.payments
      → let db' = (zarinpal_callback plus_months verify now authority status db).1 in
        (SameWallets db db' × (db'.payments ≡ db.payments))
        ⊎ (zarinpal_callback plus_months verify later authority again db' ≡ (failed, db'))
  unfolding zarinpal_callback
  zarinpal_callback_once now later authority status again db u =
      let db' : Db = (zarinpal_callback plus_months verify now authority status db).1 in
      elim (zarinpal_callback-Genuine now authority status db) [
        | inl same ↦ inl same
        | inr (p, ref_id, (asked, pending, confirmed, saved)) ↦
            let found =
              get_by_zarinpal_authority-save now authority ref_id p db db' u asked saved in
            inr (ground (arith, found))
      ]

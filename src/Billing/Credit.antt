-- ===== src/Billing/Credit.antt =====
-- What an approved top-up does to the wallet of its owner.
use kasb_o_kar_hoshmand.Base.{ℕ, ◌≡◌, ◌<◌, refl, subst, inl, inr, false, none, some, arith}
use kasb_o_kar_hoshmand.Base.Int.{pos}
use kasb_o_kar_hoshmand.Base.Time.{Instant}
use kasb_o_kar_hoshmand.Base.Table.{get_row, get_row-key}
use kasb_o_kar_hoshmand.Models.{
  ShopOwner-Keyed, WalletCharge-Keyed, Payment-Keyed, Payment, wallet_topup, ShopOwner, topup,
  WalletCharge, Db, ok,
}
use kasb_o_kar_hoshmand.Wallet.Charge.{add_charge}
use kasb_o_kar_hoshmand.Wallet.Credited
use kasb_o_kar_hoshmand.Billing.Pay.{is_first_approved_payment, save_payment}
use kasb_o_kar_hoshmand.Billing.Approve.{
  charged, credit_payment, use_discount, reward_first, settle,
}
use kasb_o_kar_hoshmand.Billing.Effects.{effect_topup}

credit_payment_exact :
    (now : Instant) (p : Payment) (o : ShopOwner) (db : Db)
    → 0 < p.final_amount
    → get_row p.shop_owner_id db.owners ≡ some o
    → (c : WalletCharge) × ((db' : Db) × ((credit_payment now p db ≡ ok (charged c, db'))
          × (get_row p.shop_owner_id db'.owners ≡ some (Credited.credited o (pos p.final_amount)))
          × (c.remaining_toman ≡ p.final_amount)
          × (c.payment_id ≡ some p.id)
          × (get_row c.id db'.charges ≡ some c)))
unfolding credit_payment kasb_o_kar_hoshmand.Wallet.Charge.new_charge
credit_payment_exact now p o db positive found =
    let same : o.id ≡ p.shop_owner_id = get_row-key p.shop_owner_id db.owners found in
    elim (Credited.add_charge_exact now o.id (pos p.final_amount) topup (some p.id) none none db
      {o = o} (simp same found)) [
        | inl (nothing, refusal) ↦ absurd (omega arith)
        | inr (some_amount, (db', done, row, new, made_row, whole)) ↦
            let c = Credited.made now o.id (pos p.final_amount) topup (some p.id) none none db in
            (
              c,
              (
                db',
                (
                  ground (arith, found, done),
                  subst
                      (λ i. get_row i db'.owners ≡ some (Credited.credited o (pos p.final_amount)))
                      same row,
                  refl,
                  refl,
                  made_row,
                ),
              ),
            )
      ]

-- The body of an approval of a top-up of a positive amount, without a discount code, for a known
-- owner who has an approved payment already, returns: the owner's balance rises by exactly the
-- amount of the payment, the notices may be sent again, and a new charge that names the payment
-- holds all of the amount.
pub settle_topup :
    (plus_months : Instant → ℕ → Instant) (now : Instant) (p p1 : Payment) (o : ShopOwner) (db : Db)
    → p1.purpose ≡ wallet_topup
    → p1.discount_code_id ≡ none
    → is_first_approved_payment p.shop_owner_id p.id db ≡ false
    → 0 < p1.final_amount
    → get_row p1.shop_owner_id db.owners ≡ some o
    → (c : WalletCharge) × ((db' : Db) × ((settle plus_months now p p1 db
            ≡ ok ((charged c, none), db'))
          × (get_row p1.shop_owner_id db'.owners ≡ some (Credited.credited o (pos p1.final_amount)))
          × (c.remaining_toman ≡ p1.final_amount)
          × (c.payment_id ≡ some p1.id)
          × (get_row c.id db'.charges ≡ some c)))
unfolding settle use_discount reward_first
settle_topup plus_months now p p1 o db topped plain again positive found =
    let (c, (db', (done, row, held, named, kept))) =
      credit_payment_exact now p1 o (save_payment p1 db) positive found in
    (
      c,
      (
        db',
        (
          ground (
            arith,
            plain,
            again,
            effect_topup plus_months now p1 (save_payment p1 db) topped,
            done,
          ),
          row,
          held,
          named,
          kept,
        ),
      ),
    )

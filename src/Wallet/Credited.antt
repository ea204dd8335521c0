-- ===== src/Wallet/Credited.antt =====
-- What a charge of the wallet, `add_charge` of app/services/wallet_service.py, does to the owner.
use kasb_o_kar_hoshmand.Base.{
  ℕ, ◌+◌, ◌*◌, ◌≡◌, ◌⊎◌, inl, inr, String, false, Option, none, some, [], ◌∷◌, ◌++◌, arith,
  Bool-cases, Option-cases, refl,
}
use kasb_o_kar_hoshmand.Base.Int.{ℤ, pos, pos_part, ◌+ℤ◌, ◌≤ℤ◌, ◌<ℤ◌, leb_ℤ}
use kasb_o_kar_hoshmand.Base.Time.{Instant, days}
use kasb_o_kar_hoshmand.Base.Table.{
  get_row, save, next_key, get_row-key, get_row-save, get_row-append, get_row-next_key,
}
use kasb_o_kar_hoshmand.Models.{
  ShopOwner-Keyed, WalletCharge-Keyed, ShopOwner, WalletCharge, WalletTransactionReason, Db, ok,
  raised, value_error,
}
use kasb_o_kar_hoshmand.Settings.{get_admin_settings}
use kasb_o_kar_hoshmand.Wallet.Charge.{
  clear_notified, add_transaction, validity, new_charge, add_charge,
}
use kasb_o_kar_hoshmand.Wallet.Invariant.{apply_balance_delta_found}
use kasb_o_kar_hoshmand.Wallet.Invariant.Charged.{validity_keeps, clear_notified-charges}

-- The row of an owner whose wallet has been charged: both notices may be sent again.
abbrev pub credited : ShopOwner → ℤ → ShopOwner
credited o amount = record o {
  wallet_balance_toman = o.wallet_balance_toman +ℤ amount;
  wallet_low_balance_notified_at = none;
  wallet_empty_notified_at = none;
}

clear_notified-row :
    (i : ℕ) (db : Db) {o : ShopOwner}
    → get_row i db.owners ≡ some o
    → get_row i (clear_notified i db).owners
      ≡ some (record o { wallet_low_balance_notified_at = none; wallet_empty_notified_at = none })
unfolding clear_notified
clear_notified-row i db {o} found = ground (
  arith,
  found,
  get_row-key i db.owners found,
  get_row-save i
      (record o { wallet_low_balance_notified_at = none; wallet_empty_notified_at = none })
      db.owners,
)

module _ (now : Instant) (owner_id : ℕ) (amount : ℤ) (reason : WalletTransactionReason)
    (payment_id months : Option ℕ) (reference : Option String) (db : Db) where
  -- The charge made, all of it unspent.
  abbrev pub made : WalletCharge
  made =
      let (n, db1) = validity months db in
      new_charge (next_key db1.charges) owner_id payment_id (pos_part amount) (now + days (n * 30))

  abbrev moved : ShopOwner → ShopOwner
  moved o = record o { wallet_balance_toman = o.wallet_balance_toman +ℤ amount }

  -- the tables after the balance is moved
  abbrev charged : ShopOwner → Db
  charged o =
      let (n, db1) = validity months db in
      record db1 { charges = db1.charges ++ made ∷ []; owners = save (moved o) db1.owners }

  abbrev charged_db : ShopOwner → Db
  charged_db o =
      add_transaction owner_id (some made.id) amount reason reference
        (clear_notified owner_id (charged o))

  -- A charge of all the amount, with nothing spent of it, that lasts for the months asked for or for
  -- those of the settings, of thirty days each.
  pub record IsUnspent (c : WalletCharge) : Type 0 where
    pub owner : c.shop_owner_id ≡ owner_id
    pub payment : c.payment_id ≡ payment_id
    pub amount_held : pos c.amount_toman ≡ amount
    pub all_left : pos c.remaining_toman ≡ amount
    pub open_still : c.is_expired ≡ false
    pub lasting :
        c.expires_at
        ≡ now
          + days (
              (elim months [
                | none ↦ (get_admin_settings db).0.wallet_topup_validity_months
                | some n ↦ n
              ])
              * 30)

  -- The two ways in which a charge of the wallet of `o` may end.
  abbrev pub Outcome : ShopOwner → Type 0
  Outcome o =
      ((amount ≤ℤ pos 0)
        × (add_charge now owner_id amount reason payment_id months reference db
            ≡ raised value_error))
      ⊎ ((pos 0 <ℤ amount)
          × ((db' : Db) × (add_charge now owner_id amount reason payment_id months reference db
                ≡ ok (made, db'))
              × (get_row owner_id db'.owners ≡ some (credited o amount))
              × (get_row made.id db.charges ≡ none)
              × (get_row made.id db'.charges ≡ some made)
              × IsUnspent made))

  charged_steps :
      {o : ShopOwner}
      → get_row owner_id db.owners ≡ some o
      → leb_ℤ amount (pos 0) ≡ false
      → add_charge now owner_id amount reason payment_id months reference db
        ≡ ok (made, charged_db o)
  unfolding add_charge
  charged_steps {o} found positive = ground (
    arith,
    apply_balance_delta_found owner_id amount
        (let (n, db1) = validity months db in record db1 { charges = db1.charges ++ made ∷ [] })
        {o = o},
    validity_keeps months db,
  )

  charged_row :
      {o : ShopOwner}
      → get_row owner_id db.owners ≡ some o
      → get_row owner_id (charged_db o).owners ≡ some (credited o amount)
  unfolding add_transaction
  charged_row {o} found = clear_notified-row owner_id (charged o) {o = moved o} (
      ground (
        arith,
        found,
        validity_keeps months db,
        get_row-key owner_id db.owners found,
        get_row-save owner_id (moved o) db.owners,
      ))

  made_new : get_row made.id db.charges ≡ none
  unfolding new_charge
  made_new = ground (arith, validity_keeps months db, get_row-next_key made.id db.charges)

  made_row : (o : ShopOwner) → get_row made.id (charged_db o).charges ≡ some made
  unfolding add_transaction new_charge
  made_row o = rw (clear_notified-charges owner_id (charged o)) (
      ground (
        arith,
        get_row-append made.id (validity months db).1.charges made,
        get_row-next_key made.id (validity months db).1.charges,
      ))

  made-IsUnspent : pos 0 <ℤ amount → IsUnspent made
  unfolding new_charge validity
  made-IsUnspent positive = record {
    owner = refl;
    payment = refl;
    amount_held = ground arith;
    all_left = ground arith;
    open_still = refl;
    lasting = elim (Option-cases months) [
      | inl unset ↦ ground (arith, unset)
      | inr (n, set) ↦ ground (arith, set)
    ];
  }

  -- For a known owner `add_charge` ends in one of two ways. An amount of zero or less raises a
  -- ValueError. Any other amount is credited: the owner's balance rises by exactly the amount, both
  -- notices of the owner may be sent again, and a charge under a new key is the owner's, names the
  -- payment, holds all of the amount, unspent and open, and expires when the months of validity have
  -- passed: those asked for or those of the settings, of thirty days each.
  pub add_charge_exact : {o : ShopOwner} → get_row owner_id db.owners ≡ some o → Outcome o
  unfolding add_charge
  add_charge_exact {o} found = elim (Bool-cases (leb_ℤ amount (pos 0))) [
    | inl none_or_less ↦ inl (ground arith, ground arith)
    | inr positive ↦ inr (
      ground arith,
      (
        charged_db o,
        charged_steps found positive,
        charged_row found,
        made_new,
        made_row o,
        made-IsUnspent (ground arith),
      ),
    )
  ]

-- ===== src/Wallet/Invariant.antt =====
-- The wallet invariant that the header of app/services/wallet_service.py states: the cached balance
-- of an owner is what remains on the owner's open charges.
pub mod Charged
pub mod Drained
pub mod Deducted
pub mod Expired
use kasb_o_kar_hoshmand.Base.{
  ◌∙◌, ap, ◌*◌, ℕ, ◌+◌, ◌-◌, ◌≤◌, ◌≡◌, ◌≢◌, refl, inl, inr, min, String, Bool, true, false, not,
  ◌&&◌, Option, none, some, List, [], ◌∷◌, ◌++◌, arith, ltb, leb, ◌==◌, if◌then◌else◌, sum_of,
  sum_of-append, Option-cases, Bool-cases,
}
use kasb_o_kar_hoshmand.Base.Int.{
  ℤ, pos, pos_part, neg_part, neg, ◌+ℤ◌, ◌-ℤ◌, ◌≤ℤ◌, leb_ℤ, int_laws, +ℤ_parts, neg_parts,
  eq_of_parts,
}
use kasb_o_kar_hoshmand.Base.Time.{Instant, days}
use kasb_o_kar_hoshmand.Base.Table.{
  get_row, save, next_key, Unique, get_row-key, get_row-save, get_row-save_self, save-Unique,
  sum_of-save, append-Unique, get_row-next_key,
}
use kasb_o_kar_hoshmand.Models.{
  ShopOwner-Keyed, WalletCharge-Keyed, WalletTransaction-Keyed, ShopOwner, WalletCharge,
  WalletTransactionReason, Db, ok, raised, Result-cases,
}
use kasb_o_kar_hoshmand.Settings.{get_admin_settings}
use kasb_o_kar_hoshmand.Wallet.Charge.{
  apply_balance_delta, clear_notified, add_transaction, validity, new_charge, add_charge,
}

-- What an owner can spend of one charge.
abbrev pub live : ℕ → WalletCharge → ℕ
live i c = if c.shop_owner_id == i && not c.is_expired then c.remaining_toman else 0

abbrev pub available : ℕ → List WalletCharge → ℕ
available i = sum_of (live i)

-- The cached balance of owner `i`, if there is one, is what remains on the open charges.
abbrev pub CachedAt : ℕ → List ShopOwner → List WalletCharge → Type 0
CachedAt i owners charges =
    (o : ShopOwner) → get_row i owners ≡ some o → o.wallet_balance_toman ≡ pos (available i charges)

pub record IsConsistent (db : Db) : Type 0 where
  pub unique : Unique db.charges
  pub cached : (i : ℕ) → CachedAt i db.owners db.charges

-- A balance moves by what one owner's open charges move by; the others keep theirs.
pub CachedAt-save :
    (i : ℕ) (o o' : ShopOwner) (owners : List ShopOwner) (charges charges' : List WalletCharge)
    → get_row o.id owners ≡ some o
    → o'.id ≡ o.id
    → (o.wallet_balance_toman ≡ pos (available o.id charges)
        → o'.wallet_balance_toman ≡ pos (available o.id charges'))
    → (i ≢ o.id → available i charges' ≡ available i charges)
    → CachedAt i owners charges
    → CachedAt i (save o' owners) charges'
CachedAt-save i o o' owners charges charges' found same moved others h p e =
    ground (arith, get_row-save i o' owners, h o, h p, others)

-- A delta on the balance and a change of the open charges by as much keep the cache right.
module _ (owner_id : ℕ) (delta : ℤ) (charges' : List WalletCharge) (db : Db)
    (owned : (b : ℤ)
      → b ≡ pos (available owner_id db.charges)
      → b +ℤ delta ≡ pos (available owner_id charges'))
    (others : (i : ℕ) → i ≢ owner_id → available i charges' ≡ available i db.charges) where
  pub apply_balance_delta-CachedAt :
      (i : ℕ) {db' : Db}
      → ((j : ℕ) → CachedAt j db.owners db.charges)
      → apply_balance_delta owner_id delta (record db { charges = charges' }) ≡ ok db'
      → CachedAt i db'.owners db'.charges
  unfolding apply_balance_delta
  apply_balance_delta-CachedAt i {db'} h e = elim (Option-cases (get_row owner_id db.owners)) [
    | inl missing ↦ ground arith
    | inr (o, found) ↦ λ p q. ground (
      arith,
      get_row-save i (record o { wallet_balance_toman = o.wallet_balance_toman +ℤ delta })
          db.owners,
      get_row-key owner_id db.owners found,
      h i p,
      h owner_id o found,
      owned o.wallet_balance_toman,
      others i,
    )
  ]

-- Writing other fields of an owner's row keeps the cache right.
pub save-CachedAt :
    (i : ℕ) (o o' : ShopOwner) (owners : List ShopOwner) (charges : List WalletCharge)
    → get_row o.id owners ≡ some o
    → o'.id ≡ o.id
    → o'.wallet_balance_toman ≡ o.wallet_balance_toman
    → CachedAt i owners charges
    → CachedAt i (save o' owners) charges
save-CachedAt i o o' owners charges found same kept h =
    CachedAt-save i o o' owners charges charges found same (λ p. kept ∙ p) (λ _. refl) h

pub apply_balance_delta-charges :
    (owner_id : ℕ) (delta : ℤ) (db : Db) {db' : Db}
    → apply_balance_delta owner_id delta db ≡ ok db'
    → db'.charges ≡ db.charges
unfolding apply_balance_delta
apply_balance_delta-charges owner_id delta db e = ground arith

-- For an owner that exists the update returns, with the owner's balance moved.
pub apply_balance_delta_found :
    (owner_id : ℕ) (delta : ℤ) (db : Db) {o : ShopOwner}
    → get_row owner_id db.owners ≡ some o
    → apply_balance_delta owner_id delta db
      ≡ ok (record db {
        owners =
            save (record o { wallet_balance_toman = o.wallet_balance_toman +ℤ delta }) db.owners;
      })
unfolding apply_balance_delta
apply_balance_delta_found owner_id delta db {o} found = ground (arith, found)

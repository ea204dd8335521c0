-- ===== src/Wallet/Ledger.antt =====
-- The ledger rule that `WalletTransaction` in app/database/models.py states: the amounts of an
-- owner's transactions add up to the cached balance.
pub mod Posted
pub mod Spent
use kasb_o_kar_hoshmand.Base.{
  ℕ, ◌+◌, ◌-◌, ◌≤◌, ◌<◌, ◌≡◌, ◌≢◌, refl, ap, sym, subst, ◌∙◌, inl, inr, min, String, Bool, true,
  false, not, ◌&&◌, Option, none, some, List, [], ◌∷◌, ◌++◌, arith, ltb, leb, ◌==◌, if◌then◌else◌,
  sum_of, Option-cases, Bool-cases, All, All-where_rows, where_rows, where_rows_pass, is_some,
}
use kasb_o_kar_hoshmand.Base.Int.{
  ℤ, pos, negsuc, pos_part, neg_part, neg, ◌+ℤ◌, ◌-ℤ◌, ◌≤ℤ◌, leb_ℤ, max_ℤ, int_laws, +ℤ_parts,
  neg_parts, -ℤ_parts, eq_of_parts, +ℤ_zero,
}
use kasb_o_kar_hoshmand.Base.Time.{Instant}
use kasb_o_kar_hoshmand.Base.Table.{get_row, save, get_row-key, get_row-save, Unique, Rows}
use kasb_o_kar_hoshmand.Models.{
  ShopOwner-Keyed, WalletCharge-Keyed, WalletTransaction-Keyed, ShopOwner, WalletCharge,
  WalletTransaction, WalletTransactionReason, Db, Result, Result-cases, ok, raised, ◌>>=◌,
}
use kasb_o_kar_hoshmand.Wallet.Charge.{
  add_transaction, apply_balance_delta, clear_notified, validity, add_charge,
}

-- What one transaction adds to the account of owner `i`.
abbrev pub entry : ℕ → WalletTransaction → ℤ
entry i t = if t.shop_owner_id == i then t.amount_toman else pos 0

abbrev pub account : ℕ → List WalletTransaction → ℤ
account i [] = pos 0
account i (t ∷ ts) = entry i t +ℤ account i ts

pub account-append :
    (i : ℕ) (ts : List WalletTransaction) (t : WalletTransaction)
    → account i (ts ++ t ∷ []) ≡ account i ts +ℤ entry i t
account-append i [] t = omega int_laws
account-append i (u ∷ ts) t = rw (account-append i ts t) (omega int_laws)

abbrev pub BooksAt : ℕ → List ShopOwner → List WalletTransaction → Type 0
BooksAt i owners ts =
    (o : ShopOwner) → get_row i owners ≡ some o → o.wallet_balance_toman ≡ account i ts

pub record HasBooks (db : Db) : Type 0 where
  pub balanced : (i : ℕ) → BooksAt i db.owners db.transactions

-- A row saved with its balance moved, and a transaction of as much, keep the books.
pub BooksAt-post :
    (i : ℕ) (o o' : ShopOwner) (t : WalletTransaction) (owners : List ShopOwner)
    (ts : List WalletTransaction)
    → get_row t.shop_owner_id owners ≡ some o
    → o'.id ≡ o.id
    → o'.wallet_balance_toman ≡ o.wallet_balance_toman +ℤ t.amount_toman
    → BooksAt i owners ts
    → BooksAt i (save o' owners) (ts ++ t ∷ [])
BooksAt-post i o o' t owners ts found same moved h p q = ground (
  arith,
  get_row-save i o' owners,
  get_row-key t.shop_owner_id owners found,
  account-append i ts t,
  h p,
  h o,
  +ℤ_zero (account i ts),
)

-- Writing other fields of an owner's row keeps the books.
pub BooksAt-save :
    (i : ℕ) (o o' : ShopOwner) (owners : List ShopOwner) (ts : List WalletTransaction)
    → get_row o.id owners ≡ some o
    → o'.id ≡ o.id
    → o'.wallet_balance_toman ≡ o.wallet_balance_toman
    → BooksAt i owners ts
    → BooksAt i (save o' owners) ts
BooksAt-save i o o' owners ts found same kept h p q =
    ground (arith, get_row-save i o' owners, h p, h o)

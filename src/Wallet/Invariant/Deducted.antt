-- ===== src/Wallet/Invariant/Deducted.antt =====
-- The wallet invariant under `deduct` of app/services/wallet_service.py, and its last guard.
use kasb_o_kar_hoshmand.Base.{
  ℕ, ◌+◌, ◌≤◌, ◌<◌, ◌≡◌, ap, subst, ◌⊎◌, ◌∙◌, inl, inr, String, Bool, true, false, Option, some,
  arith, ltb, ◌==◌, if◌then◌else◌, Bool-cases, ltb→lt,
}
use kasb_o_kar_hoshmand.Base.Int.{
  ℤ, negsuc, pos, pos_part, neg, ◌+ℤ◌, ◌-ℤ◌, ◌≤ℤ◌, ◌<ℤ◌, leb_ℤ, int_laws, +ℤ_parts, neg_parts,
  eq_of_parts,
}
use kasb_o_kar_hoshmand.Base.Table.{get_row, save, Unique, get_row-key, get_row-save}
use kasb_o_kar_hoshmand.Models.{
  ShopOwner-Keyed, WalletCharge-Keyed, WalletTransaction-Keyed, ShopOwner, WalletTransactionReason,
  Db, ok, Result-cases, ◌>>=◌,
}
use kasb_o_kar_hoshmand.Wallet.Charge.{apply_balance_delta}
use kasb_o_kar_hoshmand.Wallet.Deduct.{deductible, drain, deduct}
use kasb_o_kar_hoshmand.Wallet.Invariant.Drained.{
  drain_left, drain-owners, drain-available, drain-Unique, sum_of-deductible, deductible_open,
  deductible-Unique, deductible-Rows,
}
use kasb_o_kar_hoshmand.Wallet.Invariant.{
  available, CachedAt, IsConsistent, apply_balance_delta-CachedAt, apply_balance_delta-charges,
  apply_balance_delta_found,
}

subst_neg : (b a : ℤ) → pos 0 <ℤ a → b -ℤ a ≡ b +ℤ neg (pos_part a)
subst_neg b (pos n) h = omega int_laws
subst_neg b (negsuc n) h = absurd (omega arith)

module _ (owner_id : ℕ) (amount : ℤ) (reason : WalletTransactionReason) (reference : Option String)
    (db : Db) where
  -- the tables after the loop
  abbrev pub drained : Db
  drained = (drain owner_id reason reference (deductible owner_id db) (pos_part amount) db).1

  -- The sum tested before the loop makes the test after it fail: the last guard never fires.
  deduct_steps :
      leb_ℤ amount (pos 0) ≡ false
      → pos_part amount ≤ available owner_id db.charges
      → deduct owner_id amount reason reference db
        ≡ (apply_balance_delta owner_id (neg (pos_part amount)) drained >>= λ db2. ok (true, db2))
  unfolding deduct
  deduct_steps positive enough = ground (
    arith,
    sum_of-deductible owner_id db,
    drain_left owner_id reason reference (deductible owner_id db) (pos_part amount) db,
  )

  -- Too little is available: the answer is no, and nothing has changed.
  pub deduct_refused :
      leb_ℤ amount (pos 0) ≡ false
      → available owner_id db.charges < pos_part amount
      → deduct owner_id amount reason reference db ≡ ok (false, db)
  unfolding deduct
  deduct_refused positive short = ground (arith, sum_of-deductible owner_id db)

  drained-available :
      (i : ℕ)
      → Unique db.charges
      → pos_part amount ≤ available owner_id db.charges
      → available i drained.charges + (if i == owner_id then pos_part amount else 0)
        ≡ available i db.charges
  drained-available i h enough = ground (
    arith,
    drain-available owner_id reason reference i (deductible owner_id db) (pos_part amount) db
        (deductible_open owner_id db) (deductible-Unique owner_id db h)
        (deductible-Rows owner_id db h),
    drain_left owner_id reason reference (deductible owner_id db) (pos_part amount) db,
    sum_of-deductible owner_id db,
  )

  drained-CachedAt :
      (i : ℕ) {db' : Db}
      → IsConsistent db
      → pos_part amount ≤ available owner_id db.charges
      → apply_balance_delta owner_id (neg (pos_part amount)) drained ≡ ok db'
      → CachedAt i db'.owners db'.charges
  drained-CachedAt i h enough step =
      apply_balance_delta-CachedAt owner_id (neg (pos_part amount)) drained.charges
        (record drained { charges = db.charges })
        (λ b p. ground (
          arith,
          p,
          drained-available owner_id h.unique enough,
          +ℤ_parts b (neg (pos_part amount)),
          neg_parts (pos_part amount),
          eq_of_parts (b +ℤ neg (pos_part amount)) (pos (available owner_id drained.charges)),
        ))
        (λ j ne. ground (arith, drained-available j h.unique enough)) i
        (λ j.
          rw (drain-owners owner_id reason reference (deductible owner_id db) (pos_part amount) db)
            (h.cached j))
        step

  abbrev pub Charged : Type 0
  Charged =
      (leb_ℤ amount (pos 0) ≡ false)
      × (pos_part amount ≤ available owner_id db.charges)
      × (deduct owner_id amount reason reference db ≡ (
          apply_balance_delta owner_id (neg (pos_part amount)) drained >>= λ db2. ok (true, db2)))

  abbrev pub Refused : Type 0
  Refused =
      (leb_ℤ amount (pos 0) ≡ false)
      × (available owner_id db.charges < pos_part amount)
      × (deduct owner_id amount reason reference db ≡ ok (false, db))

  deduct_nothing :
      leb_ℤ amount (pos 0) ≡ true → deduct owner_id amount reason reference db ≡ ok (true, db)
  unfolding deduct
  deduct_nothing h = ground arith

  pub deduct-cases :
      ((leb_ℤ amount (pos 0) ≡ true) × (deduct owner_id amount reason reference db ≡ ok (true, db)))
      ⊎ (Refused ⊎ Charged)
  deduct-cases = elim (Bool-cases (leb_ℤ amount (pos 0))) [
    | inl nothing ↦ inl (nothing, deduct_nothing nothing)
    | inr positive ↦
        inr (elim (Bool-cases (ltb (available owner_id db.charges) (pos_part amount))) [
          | inl short ↦ inl (positive, ltb→lt _ _ short, deduct_refused positive (ltb→lt _ _ short))
          | inr enough ↦ inr (positive, ground arith, deduct_steps positive (ground arith))
        ])
  ]

  -- A deduction keeps the cached balances right, whether it goes through or not.
  pub deduct-IsConsistent :
      {b : Bool} {db' : Db}
      → IsConsistent db
      → deduct owner_id amount reason reference db ≡ ok (b, db')
      → IsConsistent db'
  deduct-IsConsistent {b} {db'} h e = elim deduct-cases [
    | inl (_, same) ↦ subst IsConsistent (ground (arith, same)) h
    | inr (inl (_, _, same)) ↦ subst IsConsistent (ground (arith, same)) h
    | inr (inr (positive, enough, steps)) ↦
        elim (Result-cases (apply_balance_delta owner_id (neg (pos_part amount)) drained)) [
          | inl (db2, step) ↦ subst IsConsistent {x = db2} (ground (arith, steps)) (record {
            unique = rw (apply_balance_delta-charges owner_id _ drained step) (
                drain-Unique owner_id reason reference (deductible owner_id db) (pos_part amount) db
                  h.unique);
            cached = λ i. drained-CachedAt i h enough step;
          })
          | inr (x, failed) ↦ absurd (ground (arith, steps))
        ]
  ]

  drained_found :
      {o : ShopOwner}
      → get_row owner_id db.owners ≡ some o
      → get_row owner_id drained.owners ≡ some o
  drained_found found =
      rw (drain-owners owner_id reason reference (deductible owner_id db) (pos_part amount) db)
        found

  paid :
      {o : ShopOwner}
      → get_row owner_id db.owners ≡ some o
      → get_row owner_id drained.owners ≡ some o
      → pos 0 <ℤ amount
      → deduct owner_id amount reason reference db
        ≡ (apply_balance_delta owner_id (neg (pos_part amount)) drained >>= λ db2. ok (true, db2))
      → (db' : Db) × (deduct owner_id amount reason reference db ≡ ok (true, db'))
        × (get_row owner_id db'.owners
            ≡ some (record o { wallet_balance_toman = o.wallet_balance_toman -ℤ amount }))
  paid {o} found found' positive steps =
      let o' = record o {
        wallet_balance_toman = o.wallet_balance_toman +ℤ neg (pos_part amount);
      } in
      let db' = record drained { owners = save o' drained.owners } in
      (
        db',
        steps
            ∙ ap (λ r. r >>= λ db2. ok (true, db2))
                (apply_balance_delta_found owner_id _ drained found'),
        rw (subst_neg o.wallet_balance_toman amount positive) (
            ground (
              arith,
              get_row-save owner_id o' drained.owners,
              get_row-key owner_id drained.owners found',
              found',
            )),
      )

  -- The three ways in which a deduction from the wallet of `o` may end.
  abbrev pub Outcome : ShopOwner → Type 0
  Outcome o =
      ((amount ≤ℤ pos 0) × (deduct owner_id amount reason reference db ≡ ok (true, db)))
      ⊎ (((o.wallet_balance_toman <ℤ amount)
            × (deduct owner_id amount reason reference db ≡ ok (false, db)))
          ⊎ ((pos 0 <ℤ amount)
              × (amount ≤ℤ o.wallet_balance_toman)
              × ((db' : Db) × (deduct owner_id amount reason reference db ≡ ok (true, db'))
                  × (get_row owner_id db'.owners
                      ≡ some
                          (record o { wallet_balance_toman = o.wallet_balance_toman -ℤ amount })))))

  -- For a known owner of consistent tables `deduct` returns, and in one of three ways. An amount of
  -- zero or less is a success that changes nothing. An amount above the cached balance is refused
  -- and changes nothing. Any other amount goes through, and the owner's row changes in the balance
  -- alone, which falls by exactly the amount.
  pub deduct_exact :
      {o : ShopOwner} → IsConsistent db → get_row owner_id db.owners ≡ some o → Outcome o
  deduct_exact {o} h found = elim deduct-cases [
    | inl (nothing, same) ↦ inl (ground arith, same)
    | inr (inl (positive, short, same)) ↦
        inr (inl (ground (arith, h.cached owner_id o found), same))
    | inr (inr (positive, enough, steps)) ↦ inr (
        inr (
          ground arith,
          ground (arith, h.cached owner_id o found),
          paid found (drained_found found) (ground arith) steps,
        ))
  ]

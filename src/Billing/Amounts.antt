-- ===== src/Billing/Amounts.antt =====
-- The amounts of app/services/payment_service.py and app/services/referral_service.py: the unique
-- amount of a card payment, and the amount of a commission.
use kasb_o_kar_hoshmand.Base.{
  ℕ, zero, suc, ◌+◌, ◌*◌, ◌≤◌, ◌<◌, ◌≡◌, subst, refl, inl, inr, Bool, true, false, List, [], ◌∷◌,
  arith, Bool-cases, is_some, where_rows, All,
}
use kasb_o_kar_hoshmand.Base.Rounding.{round_div}
use kasb_o_kar_hoshmand.Base.Time.{Instant}
use kasb_o_kar_hoshmand.Models.{Db, Result-cases, ok, ◌>>=◌, scalar_one_or_none}
use kasb_o_kar_hoshmand.Billing.Pay.{
  is_reserving, amount_currently_reserved, try_amounts, generate_unique_amount,
}
use kasb_o_kar_hoshmand.Billing.Reward.{reward_amount}

-- no row of a table is selected
none_selected :
    {A : Type 0} (p : A → Bool) (xs : List A) → where_rows p xs ≡ [] → All (λ x. p x ≡ false) xs
none_selected p [] h = tt
none_selected p (x ∷ xs) h = elim (Bool-cases (p x)) [
  | inl kept ↦ absurd (ground (arith, kept))
  | inr dropped ↦ (dropped, none_selected p xs (ground (arith, dropped)))
]

scalar_none :
    {A : Type 0} (xs : List A)
    → (scalar_one_or_none xs >>= λ found. ok (is_some found)) ≡ ok false
    → xs ≡ []
scalar_none [] e = refl
scalar_none (x ∷ []) e = absurd (ground arith)
scalar_none (x ∷ y ∷ zs) e = absurd (ground arith)

unreserved :
    (now : Instant) (amount : ℕ) (db : Db)
    → amount_currently_reserved now amount db ≡ ok false
    → where_rows (is_reserving now amount) db.payments ≡ []
unfolding amount_currently_reserved
unreserved now amount db e = scalar_none (where_rows (is_reserving now amount) db.payments) e

module _ (draw : ℕ → ℕ) (small : (n : ℕ) → draw n < 90) where
  try_amounts_fresh :
      (left : ℕ) (now : Instant) (base_amount : ℕ) (db : Db) {amount : ℕ}
      → try_amounts draw left now base_amount db ≡ ok amount
      → All (λ p. is_reserving now amount p ≡ false) db.payments
        × (base_amount + 10 ≤ amount)
        × (amount < base_amount + 100)
  unfolding try_amounts
  try_amounts_fresh zero now base_amount db e = absurd (ground arith)
  try_amounts_fresh (suc left) now base_amount db {amount} e =
      elim (Result-cases (amount_currently_reserved now (base_amount + (draw left + 10)) db)) [
        | inl (false, free) ↦
            let same : base_amount + (draw left + 10) ≡ amount = ground (arith, free) in
            (
              subst (λ a. All (λ p. is_reserving now a p ≡ false) db.payments) same
                  (none_selected _ db.payments (unreserved now _ db free)),
              omega (arith, same, small left),
              omega (arith, same, small left),
            )
        | inl (true, taken) ↦ try_amounts_fresh left now base_amount db (ground (arith, taken))
        | inr (x1, failed) ↦ absurd (ground (arith, failed))
      ]

  -- With draws below 90, an amount that is generated is between 10 and 99 above its base, and no
  -- pending payment whose reservation is running has it.
  pub generate_unique_amount_fresh :
      (now : Instant) (base_amount : ℕ) (db : Db) {amount : ℕ}
      → generate_unique_amount draw now base_amount db ≡ ok amount
      → All (λ p. is_reserving now amount p ≡ false) db.payments
        × (base_amount + 10 ≤ amount)
        × (amount < base_amount + 100)
  unfolding generate_unique_amount
  generate_unique_amount_fresh now base_amount db e = try_amounts_fresh 30 now base_amount db e

times_mono : (n a b : ℕ) → a ≤ b → n * a ≤ n * b
times_mono zero a b h = omega arith
times_mono (suc n) a b h = ground (arith, times_mono n a b h)

-- The commission is a whole number nearest to the percentage of the payment: it differs from it by
-- half a toman at most (all sides are taken 20000 times).
pub reward_amount_nearest :
    (payment_amount percent : ℕ)
    → (2 * (payment_amount * percent) ≤ 20000 * reward_amount payment_amount percent + 10000)
      × (20000 * reward_amount payment_amount percent ≤ 2 * (payment_amount * percent) + 10000)
unfolding reward_amount round_div
reward_amount_nearest payment_amount percent = (ground arith, ground arith)

-- With a percentage of 100 at most, the commission is no more than the payment.
pub reward_amount_bounded :
    (payment_amount percent : ℕ)
    → percent ≤ 10000
    → reward_amount payment_amount percent ≤ payment_amount
unfolding reward_amount round_div
reward_amount_bounded payment_amount percent h =
    ground (arith, times_mono payment_amount percent 10000 h)

-- ===== src/Owners/Referred.antt =====
-- Lookups of a shop owner who has just started the main bot.
use kasb_o_kar_hoshmand.Base.{
  ℕ, zero, suc, ◌<◌, ◌≡◌, refl, inl, inr, String, Bool, true, Option, none, some, List, [], ◌∷◌,
  ◌++◌, ◌==◌, ◌≤◌, arith, where_rows, Option-cases, Bool-cases, All, false, subst,
}
use kasb_o_kar_hoshmand.Models.{
  ShopOwner-Keyed, ShopOwner, Db, Result-cases, ok, scalar_empty, scalar_one_or_none,
}
use kasb_o_kar_hoshmand.Base.Texts.{same_text, same_text_path}
use kasb_o_kar_hoshmand.Owners.Register.{
  get_by_telegram_id, get_by_referral_code, find_referrer, fresh_code, new_owner, add_owner,
  get_or_create_shop_owner,
}

append_single :
    {A : Type 0} (p : A → Bool) (xs : List A) (x : A)
    → where_rows p xs ≡ []
    → p x ≡ true
    → where_rows p (xs ++ x ∷ []) ≡ x ∷ []
append_single p [] x h e = ground (arith, e)
append_single p (y ∷ ys) x h e = elim (Bool-cases (p y)) [
  | inl kept ↦ absurd (ground (arith, kept))
  | inr dropped ↦ ground (arith, dropped, append_single p ys x)
]

add_owner-owners :
    (telegram_id : ℕ) (code : String) (r : Option ℕ) (db : Db)
    → let (o, db') = add_owner telegram_id code r db in
      (db'.owners ≡ db.owners ++ o ∷ []) × (o.telegram_id ≡ telegram_id)
unfolding add_owner new_owner
add_owner-owners telegram_id code none db = (refl, refl)
add_owner-owners telegram_id code (some i) db = (refl, refl)

known_again :
    (telegram_id : ℕ) (o : ShopOwner) (db : Db) (referred_by_code : Option String)
    (codes : ℕ → String) (rounds : ℕ)
    → get_by_telegram_id telegram_id db ≡ ok (some o)
    → get_or_create_shop_owner telegram_id referred_by_code codes rounds db ≡ some (ok (o, db))
unfolding get_or_create_shop_owner
known_again telegram_id o db referred_by_code codes rounds e = ground (arith, e)

-- A new owner is the only one of its Telegram id.
found_new :
    (telegram_id : ℕ) (text : String) (r : Option ℕ) (db : Db)
    → get_by_telegram_id telegram_id db ≡ ok none
    → let (o, db') = add_owner telegram_id text r db in
      get_by_telegram_id telegram_id db' ≡ ok (some o)
unfolding get_by_telegram_id
found_new telegram_id text r db unknown =
    let o = (add_owner telegram_id text r db).0 in
    let (owners, same) = add_owner-owners telegram_id text r db in
    let single =
      append_single (λ x. x.telegram_id == telegram_id) db.owners o (scalar_empty _ unknown)
        (ground (arith, same)) in
    rw (owners, single) refl

-- The owner that is found or made for a Telegram id is found again for it: a second call, with any
-- referral code and any draws, gives the same owner and changes nothing.
pub get_or_create_shop_owner_again :
    (telegram_id : ℕ) (referred_by_code referred_by_code' : Option String)
    (codes codes' : ℕ → String) (rounds rounds' : ℕ) (db : Db) {o : ShopOwner} {db' : Db}
    → get_or_create_shop_owner telegram_id referred_by_code codes rounds db ≡ some (ok (o, db'))
    → get_or_create_shop_owner telegram_id referred_by_code' codes' rounds' db' ≡ some (ok (o, db'))
unfolding get_or_create_shop_owner
get_or_create_shop_owner_again telegram_id referred_by_code referred_by_code' codes codes' rounds
      rounds' db {o} {db'} e =
    known_again telegram_id o db' referred_by_code' codes' rounds'
      (elim (Result-cases (get_by_telegram_id telegram_id db)) [
        | inl (known, asked) ↦ elim (Option-cases known) [
          | inr (o1, old) ↦ ground (arith, asked, old)
          | inl new ↦ elim (Result-cases (find_referrer referred_by_code db)) [
            | inl (r, referrer) ↦ elim (Option-cases (fresh_code codes rounds db)) [
              | inl endless ↦ absurd (ground (arith, asked, new, referrer, endless))
              | inr (code, ended) ↦ elim (Result-cases code) [
                | inl (text, drawn) ↦
                    ground
                      (arith, asked, new, referrer, ended, drawn, found_new telegram_id text r db)
                | inr (x, failed) ↦ absurd (ground (arith, asked, new, referrer, ended, failed))
              ]
            ]
            | inr (x, failed) ↦ absurd (ground (arith, asked, new, failed))
          ]
        ]
        | inr (x, failed) ↦ absurd (ground (arith, failed))
      ])

-- No two owners have one referral code, as the unique column keeps them.
abbrev pub UniqueCodes : List ShopOwner → Type 0
UniqueCodes [] = Unit
UniqueCodes (o ∷ os) =
    All (λ (p : ShopOwner). same_text p.referral_code o.referral_code ≡ false) os × UniqueCodes os

none_other :
    (text : String) (os : List ShopOwner)
    → All (λ (p : ShopOwner). same_text p.referral_code text ≡ false) os
    → where_rows (λ o. same_text o.referral_code text) os ≡ []
none_other text [] h = refl
none_other text (o ∷ os) h = ground (arith, h.0, none_other text os h.1)

one_at_most :
    (text : String) (os : List ShopOwner)
    → UniqueCodes os
    → (found : Option ShopOwner) × (scalar_one_or_none
          (where_rows (λ o. same_text o.referral_code text) os)
        ≡ ok found)
one_at_most text [] u = (none, refl)
one_at_most text (o ∷ os) u = elim (Bool-cases (same_text o.referral_code text)) [
  | inl mine ↦
      let code : o.referral_code ≡ text = same_text_path o.referral_code text mine in
      let rest =
        none_other text os
          (subst (λ t. All (λ (p : ShopOwner). same_text p.referral_code t ≡ false) os) code u.0) in
      (some o, ground (arith, mine, rest))
  | inr other ↦
      let (found, asked) = one_at_most text os u.1 in (found, ground (arith, other, asked))
]

code_answers :
    (text : String) (db : Db)
    → UniqueCodes db.owners
    → (found : Option ShopOwner) × (get_by_referral_code text db ≡ ok found)
unfolding get_by_referral_code
code_answers text db u = one_at_most text db.owners u

-- The loop that draws a referral code ends, where no two owners have one code: if among the codes of
-- `n` rounds one is unused, it gives an unused code of these rounds, not drawn later than that one.
pub fresh_code_total :
    (codes : ℕ → String) (db : Db) (n k : ℕ)
    → UniqueCodes db.owners
    → k < n
    → get_by_referral_code (codes k) db ≡ ok none
    → (m : ℕ) × ((k ≤ m)
        × (m < n)
        × (fresh_code codes n db ≡ some (ok (codes m)))
        × (get_by_referral_code (codes m) db ≡ ok none))
unfolding fresh_code
fresh_code_total codes db zero k u h unused = absurd (omega arith)
fresh_code_total codes db (suc n) k u h unused =
    let (found, asked) = code_answers (codes n) db u in
    elim (Option-cases found) [
      | inl nobody ↦ (
        n,
        (omega arith, omega arith, ground (arith, asked, nobody), ground (arith, asked, nobody)),
      )
      | inr (o, somebody) ↦
          let (m, (late, drawn, rest, free)) =
            fresh_code_total codes db n k u (ground (arith, asked, somebody)) unused in
          (m, (late, omega arith, ground (arith, asked, somebody, rest), free))
    ]

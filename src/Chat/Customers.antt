-- ===== src/Chat/Customers.antt =====
-- app/services/customer_service.py: a customer of a shop bot, made on the first message.
use kasb_o_kar_hoshmand.Base.{
  ℕ, ◌≡◌, subst, inl, inr, String, Bool, true, ◌&&◌, Option, none, some, [], ◌∷◌, ◌++◌, ◌==◌, arith,
  All, where_rows, where_rows_pass, Option-cases,
}
use kasb_o_kar_hoshmand.Base.Time.{Instant}
use kasb_o_kar_hoshmand.Base.Table.{get_row, save, next_key}
use kasb_o_kar_hoshmand.Models.{
  Customer-Keyed, Customer, Db, Result, Result-cases, ok, ◌>>=◌, scalar_one_or_none, scalar_one,
}

unfoldable pub get_by_id : ℕ → Db → Option Customer
get_by_id customer_id db = get_row customer_id db.customers

abbrev pub is_customer : ℕ → ℕ → Customer → Bool
is_customer shop_bot_id telegram_id c = c.shop_bot_id == shop_bot_id && c.telegram_id == telegram_id

unfoldable pub get_by_shop_bot_and_telegram_id : ℕ → ℕ → Db → Result (Option Customer)
get_by_shop_bot_and_telegram_id shop_bot_id telegram_id db =
    scalar_one_or_none (where_rows (is_customer shop_bot_id telegram_id) db.customers)

-- a name that comes replaces the one kept
abbrev pub or_kept : Option String → Option String → Option String
or_kept none kept = kept
or_kept (some name) kept = some name

-- a known customer, at a further message
unfoldable pub seen_again : Instant → Option String → Option String → Customer → Customer
seen_again now first_name username c = record c {
  first_name = or_kept first_name c.first_name;
  username = or_kept username c.username;
  last_message_at = some now;
}

unfoldable pub get_or_create_customer :
    Instant → ℕ → ℕ → Option String → Option String → Db → Result (Customer × Db)
get_or_create_customer now shop_bot_id telegram_id first_name username db = do
  found ← get_by_shop_bot_and_telegram_id shop_bot_id telegram_id db
  elim found [
    | none ↦
        let c : Customer = record {
          id = next_key db.customers;
          shop_bot_id = shop_bot_id;
          telegram_id = telegram_id;
          first_name = first_name;
          username = username;
          last_message_at = some now;
        } in
        ok (c, record db { customers = db.customers ++ c ∷ [] })
    | some c ↦
        let c1 = seen_again now first_name username c in
        ok (c1, record db { customers = save c1 db.customers })
  ]

-- The customer that is found or made is one of the shop bot with the Telegram id, was seen now, and
-- has the names that came; a name that did not come is kept where the customer was known.
pub get_or_create_customer_found :
    (now : Instant) (shop_bot_id telegram_id : ℕ) (first_name username : Option String) (db : Db)
    {c : Customer} {db' : Db}
    → get_or_create_customer now shop_bot_id telegram_id first_name username db ≡ ok (c, db')
    → (is_customer shop_bot_id telegram_id c ≡ true)
      × (c.last_message_at ≡ some now)
      × ((old : Option Customer) × ((get_by_shop_bot_and_telegram_id shop_bot_id telegram_id db
              ≡ ok old)
            × (c.first_name ≡ or_kept first_name (elim old [ none ↦ none | some o ↦ o.first_name ]))
            × (c.username ≡ or_kept username (elim old [ none ↦ none | some o ↦ o.username ]))))
unfolding get_or_create_customer seen_again get_by_shop_bot_and_telegram_id
get_or_create_customer_found now shop_bot_id telegram_id first_name username db {c} {db'} e =
    elim (Result-cases (get_by_shop_bot_and_telegram_id shop_bot_id telegram_id db)) [
      | inr (x, failed) ↦ absurd (ground (arith, failed))
      | inl (found, asked) ↦ elim (Option-cases found) [
        | inl new ↦ (
          ground (arith, asked, new),
          ground (arith, asked, new),
          (
            none,
            (ground (arith, asked, new), ground (arith, asked, new), ground (arith, asked, new)),
          ),
        )
        | inr (o, old) ↦
            let passed =
              (subst (All (λ q. is_customer shop_bot_id telegram_id q ≡ true))
                (scalar_one _ {x = o} (ground (arith, asked, old)))
                (where_rows_pass (is_customer shop_bot_id telegram_id) db.customers)).0 in
            (
              ground (arith, asked, old, passed),
              ground (arith, asked, old),
              (
                some o,
                (
                  ground (arith, asked, old),
                  ground (arith, asked, old),
                  ground (arith, asked, old),
                ),
              ),
            )
      ]
    ]

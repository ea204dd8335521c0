-- ===== src/Platform/Once.antt =====
-- Repeated uses of a one-time code, in app/services/otp_service.py.
use kasb_o_kar_hoshmand.Base.{
  ℕ, ◌≤◌, ◌≡◌, refl, inl, inr, subst, String, true, false, some, List, [], ◌∷◌, ◌==◌, arith,
  where_rows, where_rows_pass, All, Bool-cases, Option-cases,
}
use kasb_o_kar_hoshmand.Base.Time.{Instant}
use kasb_o_kar_hoshmand.Base.Table.{get_row, save, Unique, Rows-self}
use kasb_o_kar_hoshmand.Base.Lists.{All-where_rows}
use kasb_o_kar_hoshmand.Models.{
  OtpCode-Keyed, OtpCode, Db, Result-cases, ok, scalar_one_or_none, scalar_one,
}
use kasb_o_kar_hoshmand.Platform.Otp.{is_open, verify_otp}

module _ (shop_owner_id : ℕ) (purpose code : String) where
  -- Where no code is open, none is later.
  none_open_later :
      (now later : Instant) (rows : List OtpCode)
      → now ≤ later
      → where_rows (is_open now shop_owner_id purpose code) rows ≡ []
      → where_rows (is_open later shop_owner_id purpose code) rows ≡ []
  none_open_later now later [] le e = refl
  none_open_later now later (x ∷ xs) le e =
      elim (Bool-cases (is_open now shop_owner_id purpose code x)) [
        | inl open_now ↦ absurd (ground (arith, open_now))
        | inr shut ↦ ground (arith, shut, none_open_later now later xs le)
      ]

  later_shut :
      (now later : Instant) (x : OtpCode)
      → now ≤ later
      → is_open now shop_owner_id purpose code x ≡ false
      → is_open later shop_owner_id purpose code x ≡ false
  later_shut now later x le shut = ground arith

  consumed_shut :
      (now later : Instant) (rows : List OtpCode) (o : OtpCode)
      → now ≤ later
      → Unique rows
      → get_row o.id rows ≡ some o
      → is_open now shop_owner_id purpose code o ≡ true
      → where_rows (is_open now shop_owner_id purpose code) rows ≡ o ∷ []
      → where_rows
          (is_open later shop_owner_id purpose code)
          (save (record o { consumed = true }) rows)
        ≡ []
  consumed_shut now later [] o le u found good e = absurd (ground arith)
  consumed_shut now later (x ∷ xs) o le u found good e = elim (Bool-cases (x.id == o.id)) [
    | inl here ↦
        let same : x ≡ o = ground (arith, here) in
        ground (arith, here, same, good, none_open_later now later xs le)
    | inr there ↦ elim (Bool-cases (is_open now shop_owner_id purpose code x)) [
      | inl open_now ↦ absurd (ground (arith, open_now, there))
      | inr shut ↦
          ground
            (arith, there, shut, later_shut now later x le, consumed_shut now later xs o le u.1)
    ]
  ]

  -- A code that is taken is one that was made for the owner and the purpose, was not used and has
  -- not run out; it is not taken again, then or later.
  pub verify_otp_once :
      (now later : Instant) (db : Db) {db' : Db}
      → Unique db.otp_codes
      → now ≤ later
      → verify_otp now shop_owner_id purpose code db ≡ ok (true, db')
      → ((o : OtpCode) × ((get_row o.id db.otp_codes ≡ some o)
            × (is_open now shop_owner_id purpose code o ≡ true)))
        × (verify_otp later shop_owner_id purpose code db' ≡ ok (false, db'))
  unfolding verify_otp
  verify_otp_once now later db {db'} u le e =
      let selected = where_rows (is_open now shop_owner_id purpose code) db.otp_codes in
      elim (Result-cases (scalar_one_or_none selected)) [
        | inr (x, failed) ↦ absurd (ground (arith, failed))
        | inl (found, asked) ↦ elim (Option-cases found) [
          | inl missing ↦ absurd (ground (arith, asked, missing))
          | inr (o, got) ↦
              let one : selected ≡ o ∷ [] =
                scalar_one selected {x = o} (ground (arith, asked, got)) in
              let good : is_open now shop_owner_id purpose code o ≡ true =
                (subst (All (λ q. is_open now shop_owner_id purpose code q ≡ true)) one
                  (where_rows_pass (is_open now shop_owner_id purpose code) db.otp_codes)).0 in
              let stands : get_row o.id db.otp_codes ≡ some o =
                (subst (All (λ q. get_row q.id db.otp_codes ≡ some q)) one (
                  All-where_rows _ (is_open now shop_owner_id purpose code) db.otp_codes
                    (Rows-self db.otp_codes u))).0 in
              (
                (o, (stands, good)),
                ground (
                  arith,
                  asked,
                  got,
                  consumed_shut now later db.otp_codes o le u stands good one,
                ),
              )
        ]
      ]

-- ===== src/Platform/Otp.antt =====
-- app/services/otp_service.py: the codes that prove a phone number or an e-mail address.
use kasb_o_kar_hoshmand.Base.{
  ℕ, ◌+◌, String, Bool, true, false, not, ◌&&◌, none, some, [], ◌∷◌, ◌++◌, ltb, ◌==◌, where_rows,
}
use kasb_o_kar_hoshmand.Base.Texts.{same_text}
use kasb_o_kar_hoshmand.Base.Time.{Instant, minutes}
use kasb_o_kar_hoshmand.Base.Table.{save, next_key}
use kasb_o_kar_hoshmand.Models.{OtpCode-Keyed, OtpCode, Db, Result, ok, ◌>>=◌, scalar_one_or_none}

abbrev pub otp_ttl_minutes : ℕ
otp_ttl_minutes = 5

-- `code` is what `secrets` drew, printed with six digits
unfoldable pub generate_otp : Instant → String → ℕ → String → Db → String × Db
generate_otp now code shop_owner_id purpose db =
    let otp : OtpCode = record {
      id = next_key db.otp_codes;
      shop_owner_id = shop_owner_id;
      code = code;
      purpose = purpose;
      expires_at = now + minutes otp_ttl_minutes;
      consumed = false;
    } in
    (code, record db { otp_codes = db.otp_codes ++ otp ∷ [] })

-- The order of the query does not matter, since two rows raise.
abbrev pub is_open : Instant → ℕ → String → String → OtpCode → Bool
is_open now shop_owner_id purpose code o =
    o.shop_owner_id == shop_owner_id
    && (same_text o.purpose purpose
        && (same_text o.code code && (not o.consumed && ltb now o.expires_at)))

unfoldable pub verify_otp : Instant → ℕ → String → String → Db → Result (Bool × Db)
verify_otp now shop_owner_id purpose code db = do
  found ← scalar_one_or_none (where_rows (is_open now shop_owner_id purpose code) db.otp_codes)
  ok (elim found [
    | none ↦ (false, db)
    | some otp ↦
        (true, record db { otp_codes = save (record otp { consumed = true }) db.otp_codes })
  ])

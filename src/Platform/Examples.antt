-- ===== src/Platform/Examples.antt =====
-- Runs of the one-time codes.
use kasb_o_kar_hoshmand.Base.{◌≡◌, refl, true, false, [], ◌∷◌, arith, some}
use kasb_o_kar_hoshmand.Base.Time.{minutes}
use kasb_o_kar_hoshmand.Base.Table.{get_row}
use kasb_o_kar_hoshmand.Models.{OtpCode-Keyed, OtpCode, empty_db, Db, ok}
use kasb_o_kar_hoshmand.Platform.Otp.{is_open, verify_otp}
use kasb_o_kar_hoshmand.Platform.Once.{verify_otp_once}
use kasb_o_kar_hoshmand.Samples.{value_or}

abbrev code : OtpCode
code = record {
  id = 1;
  shop_owner_id = 1;
  code = "482913";
  purpose = "phone";
  expires_at = minutes 5;
  consumed = false;
}

abbrev sent : Db
sent = record empty_db { otp_codes = code ∷ [] }

abbrev used : Db
used = (value_or (false, sent) (verify_otp 10 1 "phone" "482913" sent)).1

taken : verify_otp 10 1 "phone" "482913" sent ≡ ok (true, used)
unfolding verify_otp
taken = refl

verify_otp_once_example :
    ((o : OtpCode) × ((get_row o.id sent.otp_codes ≡ some o)
        × (is_open 10 1 "phone" "482913" o ≡ true)))
    × (verify_otp 20 1 "phone" "482913" used ≡ ok (false, used))
verify_otp_once_example =
    verify_otp_once 1 "phone" "482913" 10 20 sent {db' = used} (refl, tt) (omega arith) taken

-- ===== src/Validators/Examples.antt =====
-- Runs of the validators, on a table of characters with the ASCII ones and a superscript.
use kasb_o_kar_hoshmand.Base.{◌≡◌, refl, true, false, some, [], ◌∷◌, arith}
use kasb_o_kar_hoshmand.Base.Int.{neg}
use kasb_o_kar_hoshmand.Base.Chars.{codes}
use kasb_o_kar_hoshmand.Models.{ok, raised, value_error}
use kasb_o_kar_hoshmand.Validators.{
  grouped, is_valid_email, normalize_iran_phone, parse_price_toman, parse_signed_toman_amount,
}
use kasb_o_kar_hoshmand.Samples.{ascii}
use kasb_o_kar_hoshmand.Validators.Prices.{parse_price_toman-grouped}

printed : grouped 1250000 ≡ codes "1,250,000"
unfolding grouped
printed = refl

superscript : parse_price_toman ascii (178 ∷ []) ≡ raised value_error
unfolding parse_price_toman
superscript = refl

signed : parse_signed_toman_amount ascii (codes " -5,000 ") ≡ ok (some (neg 5000))
unfolding parse_signed_toman_amount
signed = refl

addresses :
    (is_valid_email ascii (codes " a@b.ir ") ≡ true)
    × (is_valid_email ascii (codes "a@b.") ≡ false)
    × (is_valid_email ascii (codes "a b@c.ir") ≡ false)
    × (is_valid_email ascii (codes "a@.ir") ≡ false)
unfolding is_valid_email
addresses = (refl, refl, refl, refl)

parse_price_toman-grouped_example : parse_price_toman ascii (grouped 1250000) ≡ ok (some 1250000)
parse_price_toman-grouped_example = parse_price_toman-grouped ascii 1250000 (omega arith)

dashed : normalize_iran_phone ascii (codes "0098 912-345 67 89") ≡ some (codes "09123456789")
unfolding normalize_iran_phone
dashed = refl

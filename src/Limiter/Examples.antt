-- ===== src/Limiter/Examples.antt =====
-- Runs of the limiter: one message a minute.
use kasb_o_kar_hoshmand.Base.{◌≤◌, ◌≡◌, refl, true, [], ◌∷◌, arith, ltb}
use kasb_o_kar_hoshmand.Base.Time.{seconds}
use kasb_o_kar_hoshmand.Limiter.Window.{Windows, check_and_record}
use kasb_o_kar_hoshmand.Limiter.Exact.{
  count_within, LimiterReach, check_and_record_exact, LimiterReach-bounded,
}

abbrev fresh : Windows
fresh s c = []

abbrev after_one : Windows
after_one = (check_and_record (seconds 5) 1 2 1 60 fresh).1

let_through : check_and_record (seconds 5) 1 2 1 60 fresh ≡ (true, after_one)
unfolding check_and_record kasb_o_kar_hoshmand.Limiter.Window.drop_old
let_through = refl

one :
    LimiterReach 1 2 1 60
      (seconds 5 ∷ [])
      (seconds 5)
      (check_and_record (seconds 6) 1 3 1 60 after_one).1
one =
    LimiterReach.other (seconds 6) 1 3 1 60
      (LimiterReach.own (seconds 5) true LimiterReach.empty (omega arith) let_through) refl

check_and_record_exact_example :
    (check_and_record (seconds 40) 1 2 1 60 (check_and_record (seconds 6) 1 3 1 60 after_one).1).0
    ≡ ltb (count_within (seconds 60) (seconds 40) (seconds 5 ∷ [])) 1
check_and_record_exact_example = check_and_record_exact 1 2 1 60 (seconds 40) one (omega arith)

LimiterReach-bounded_example : count_within (seconds 60) (seconds 40) (seconds 5 ∷ []) ≤ 1
LimiterReach-bounded_example = LimiterReach-bounded 1 2 1 60 (seconds 40) one (omega arith)

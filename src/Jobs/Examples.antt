-- ===== src/Jobs/Examples.antt =====
-- Runs of the rounds of the scheduler.
use kasb_o_kar_hoshmand.Base.{ℕ, Bool, true, false, List, [], ◌∷◌, ◌==◌}
use kasb_o_kar_hoshmand.Base.Time.{Instant, days}
use kasb_o_kar_hoshmand.Jobs.{Round, run_periodic_tasks}
use kasb_o_kar_hoshmand.Jobs.Frames.{IsSound}
use kasb_o_kar_hoshmand.Jobs.Rounds.{run_periodic_tasks-IsSound}
use kasb_o_kar_hoshmand.Samples.{shop, shop_wallets, shop_orders}

abbrev round : Instant → Bool → (ℕ → Bool) → Round
round now answers breaks = record { now = now; delivered = λ chat. answers; breaks = breaks }

-- a round that nothing disturbs, one that loses its messages and is broken off in the fourth job, and
-- one after the end of the charge and of the candidate
abbrev rounds : List Round
rounds =
    round (days 1) true (λ k. false)
    ∷ round (days 20) false (λ k. k == 3)
    ∷ round (days 41) true (λ k. false)
    ∷ []

run_periodic_tasks-IsSound_example : IsSound (run_periodic_tasks rounds shop)
run_periodic_tasks-IsSound_example =
    run_periodic_tasks-IsSound rounds shop (record { wallets = shop_wallets; orders = shop_orders })

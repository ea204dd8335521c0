-- ===== src/Jobs/Rounds.antt =====
-- The wallets and the orders under the rounds of app/services/scheduler.py.
use kasb_o_kar_hoshmand.Base.{
  ℕ, ◌+◌, ◌≡◌, inl, inr, subst, Bool, List, [], ◌∷◌, All, Bool-cases, arith,
}
use kasb_o_kar_hoshmand.Base.Time.{Instant}
use kasb_o_kar_hoshmand.Models.{Db, Result, Result-cases, ok}
use kasb_o_kar_hoshmand.Settings.{get_admin_settings}
use kasb_o_kar_hoshmand.Wallet.Remind.{process_wallet_expiry_and_reminders}
use kasb_o_kar_hoshmand.Orders.Reach as Orders
use kasb_o_kar_hoshmand.Billing.Frame.{SameWallets-IsSound}
use kasb_o_kar_hoshmand.Answer.Frame.{settings-SameGoods}
use kasb_o_kar_hoshmand.Jobs.{
  Job, Round, prune_job, process_order_expiry, jobs_of, run_jobs, run_round, run_periodic_tasks,
}
use kasb_o_kar_hoshmand.Jobs.Wallets.{wallet_job-IsSound}
use kasb_o_kar_hoshmand.Jobs.Frames.{
  IsSound, SameGoods-IsSound, Keeps-IsSound, settings-Keeps, grace-Keeps, reports-Keeps,
  wallet_job-SameGoods, order_job-SameWallets, prune-Keeps,
}

order_job-IsSound : (now : Instant) (db : Db) → IsSound db → IsSound (process_order_expiry now db).1
unfolding process_order_expiry
order_job-IsSound now db h =
    let (settings, db1) = get_admin_settings db in
    let timeout = settings.order_customer_confirmation_timeout_minutes in
    let h1 = SameGoods-IsSound db db1 (settings-SameGoods db) h.orders in
    record {
      wallets = SameWallets-IsSound db _ (order_job-SameWallets now db) h.wallets;
      orders = Orders.OrderReach-IsSound h1 (
          Orders.next (Orders.next Orders.here (Orders.unanswered now timeout)) (Orders.lapse now));
    }

-- what a job does, where it does not raise, is sound
abbrev KeepsSound : Job → Type 0
KeepsSound job = (db db' : Db) → IsSound db → job db ≡ ok db' → IsSound db'

abbrev Returns : Result Db → Db → Type 0
Returns r db = r ≡ ok db

returned-IsSound : (a b : Db) → IsSound a → Returns (ok a) b → IsSound b
returned-IsSound a b h e = subst IsSound (ground (arith, e)) h

wallets-IsSound :
    (delivered : ℕ → Bool) (now : Instant) (db : Db)
    → IsSound db
    → IsSound (process_wallet_expiry_and_reminders delivered now db)
wallets-IsSound delivered now db h = record {
  wallets = wallet_job-IsSound delivered now db h.wallets;
  orders = SameGoods-IsSound db _ (wallet_job-SameGoods delivered now db) h.orders;
}

prune-IsSound : (now : Instant) (db : Db) → IsSound db → IsSound (prune_job now db)
prune-IsSound now db h =
    let (settings, db1) = get_admin_settings db in
    Keeps-IsSound db1 _ (prune-Keeps now settings.conversation_retention_days db1)
      (Keeps-IsSound db db1 (settings-Keeps db) h)

jobs-KeepsSound : (r : Round) → All KeepsSound (jobs_of r)
unfolding jobs_of
jobs-KeepsSound r = (
  λ db db' h e. Keeps-IsSound db db' (grace-Keeps r.delivered r.now db {db' = db'} e) h,
  (
    λ db db' h e. Keeps-IsSound db db' (reports-Keeps r.delivered r.now db {db' = db'} e) h,
    (
      λ db db' h e. returned-IsSound _ db' (wallets-IsSound r.delivered r.now db h) e,
      (
        λ db db' h e. returned-IsSound _ db' (order_job-IsSound r.now db h) e,
        (λ db db' h e. returned-IsSound _ db' (prune-IsSound r.now db h) e, tt),
      ),
    ),
  ),
)

run_jobs-IsSound :
    (breaks : ℕ → Bool) (k : ℕ) (jobs : List Job) (db : Db)
    → All KeepsSound jobs
    → IsSound db
    → IsSound (run_jobs breaks k jobs db)
unfolding run_jobs
run_jobs-IsSound breaks k [] db sound h = h
run_jobs-IsSound breaks k (job ∷ jobs) db sound h = elim (Bool-cases (breaks k)) [
  | inl broken ↦ rw (broken, run_jobs) h
  | inr whole ↦ elim (Result-cases (job db)) [
    | inr (x, failed) ↦ rw (whole, run_jobs) (rw failed h)
    | inl (db1, done) ↦
        rw (whole, run_jobs)
          (rw done (run_jobs-IsSound breaks (k + 1) jobs db1 sound.1 (sound.0 db db1 h done)))
  ]
]

-- However many rounds of the periodic jobs run, at whatever times, and in each of them whichever jobs
-- raise or are broken off from outside and whichever messages are lost, the wallets stay sound and so
-- do the orders with the stock held for them.
pub run_periodic_tasks-IsSound :
    (rounds : List Round) (db : Db) → IsSound db → IsSound (run_periodic_tasks rounds db)
unfolding run_periodic_tasks run_round
run_periodic_tasks-IsSound [] db h = h
run_periodic_tasks-IsSound (r ∷ later) db h =
    run_periodic_tasks-IsSound later (run_round r db)
      (run_jobs-IsSound r.breaks 0 (jobs_of r) db (jobs-KeepsSound r) h)

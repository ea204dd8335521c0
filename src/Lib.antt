-- ===== src/Lib.antt =====
-- A verification library for Smart Business (kasb-o-kar-hoshmand), the platform on which a shop
-- owner registers a Telegram bot that answers customers, takes orders and is paid for from a
-- prepaid wallet.
--
-- The program's parts. Handlers of the main bot and of the shop bots (app/bots) and the web entry
-- points (app/main.py) open a database session, call services (app/services) and answer with
-- texts. A service reads and changes the tables of app/database/models.py through the session; the
-- scheduler calls the periodic ones.
--
-- How the state is modelled. The tables within one session are the record `Db` of Models/Database;
-- a table is the list of its rows, with the lemmas of Base/Table. `session.get` and a query by key
-- are `get_row`; an assignment to a field of a loaded object is `save` of the changed row under
-- its key, as the identity map has it; `session.add` with its flush appends a row under the key
-- `next_key`. A service that can raise gives a `Result`; the session's owner rolls back on a raise
-- (`session_scope`, `DbSessionMiddleware`), so no tables come with it. `datetime.now` is an
-- argument `now`, in microseconds (Base/Time). Amounts of money that can be negative are integers
-- (Base/Int). Numbers of days, quantities and keys are natural numbers, and a difference that the
-- source stops at zero is the one of the naturals.
--
-- The files.
--   Base      what the files share: tests, integers, lists, tables, rounding, instants
--   Models    the tables and enums of app/database/models.py
--   Settings  app/services/admin_settings_service.py
--   Wallet    app/services/wallet_service.py: Charge (`_apply_balance_delta`, `add_charge`, the
--             queries), Deduct (`deduct`), Expire (`expire_stale_charges`), Remind (the reminders,
--             and app/services/wallet_expiry_service.py), Cost (the prices of an answer), Notify
--             (the two notices). Proofs: Invariant (the cached balance), Ledger (the transactions),
--             Credited, Pacing (reminders and notices), Prices, Closed (what the daily job writes),
--             Fifo (the order in which charges are spent), Reach (all operations in any order)
--   Orders    app/services/order_service.py: Create, Customer, Owner, Query. Proofs: Reserved (the
--             reservation of stock), Lifecycle, Owned, Reach (all operations in any order)
--   Billing   app/services/payment_service.py (Pay, Approve), app/services/discount_service.py
--             (Discount), app/services/subscription_service.py (Subscribe),
--             app/services/referral_service.py (Reward), and the two buttons on a payment of
--             app/bots/main_bot/handlers/admin.py (Approve). Proofs: Frame, Effects, Settled (an
--             approval step by step), Reach, Credit, Once, Buttons, Unpaid, Commission, Amounts,
--             Renewal, Validated
--   Grace     app/services/grace_period_service.py, and the proofs in Moved
--   Limiter   app/services/rate_limiter.py: Window, and the proofs in Exact
--   Access    `_check_access` and `_deduct_and_notify` of app/bots/shop_bot/handlers/customer.py
--   Chat      app/services/customer_service.py (Customers), app/services/conversation_service.py
--             (Conversations), and the proofs in History
--   Products  app/services/product_service.py
--   Owners    app/services/shop_owner_service.py: Register, and the proofs in Referred
--   Validators  app/utils/validators.py. Proofs: Prices, Phones
--   Moderation  app/services/moderation_service.py
--   Ai        app/services/ai_service.py (Client, Circuit, Pool) and app/services/ai_pool_service.py
--             (Keys). Proofs: Retry, Breaker, Answers
--   Platform  app/services/subscription_plan_service.py (Plans), app/services/otp_service.py (Otp),
--             app/services/admin_role_service.py (Roles), app/services/audit_log_service.py and
--             app/services/bot_error_service.py (Audit). Proofs: Once
--   Shops     app/services/shop_bot_service.py (Bots), app/services/channel_service.py (Channels),
--             app/services/channel_knowledge_service.py and app/bots/common/channel_knowledge.py
--             (Knowledge). Proofs: Primary
--   Answer    app/bots/shop_bot/handlers/customer.py: Media (the messages that come in), Debounce (the
--             buffer of a customer's messages), Turn (`_generate_and_send_reply`), Propose
--             (`_detect_and_notify_order`), Buttons (the customer's buttons on a proposed order), and
--             app/services/order_detection_service.py (Detect). Proofs: Paid, Settled and Charged
--             (what a turn pays), Wallets, Buffered, Frame, Detected, Offered and Proposed (what becomes an
--             order), Refused
--   Web       app/main.py: Updates (the webhooks), Payments (the callbacks of the gateways), and
--             app/services/bot_manager.py (Manager). Proofs: Seen, Genuine
--   Gate      app/bots/common/middlewares.py
--   Panel     app/bots/main_bot/handlers/panel.py: Orders (the owner's buttons on orders), TopUp (the
--             purchase of credit). Proofs: Pressed, Quoted
--   Admin     app/bots/main_bot/filters.py and app/bots/main_bot/handlers/admin.py: Roles, Owners
--             (suspension, gifts and corrections), Switches. Proofs: Logged, Audited
--   Import    app/services/excel_import_service.py, and Handlers, the two handlers of
--             app/bots/main_bot/handlers/products.py that use it. Proofs: Listed
--   Jobs      app/services/scheduler.py, app/services/report_service.py and
--             app/services/order_expiry_service.py. Proofs: Wallets, Frames, Rounds
--   Samples   rows and tables that the runs share
--   Examples  runs on small databases, here and beside the larger parts
--
-- How the parts meet. A customer's message passes the check of access (Access) and joins the buffer
-- (Answer/Debounce); the task that wakes answers the batch (Answer/Turn) with the prompt of Chat, the
-- rules of Moderation and a service of Ai, pays through Wallet, and looks for an order
-- (Answer/Propose), which the customer's and the owner's buttons (Answer/Buttons, Panel/Orders) take
-- through the states of Orders. The owner buys credit in Panel/TopUp, which makes the payments of
-- Billing; the gateways' callbacks (Web/Payments) or an administrator (Billing/Approve) approve them.
-- Jobs runs the periodic jobs of Grace, Wallet and Orders in turn.
--
-- Loops are structural recursion over the rows that the query gave, so no fuel is needed; the loop
-- of `_generate_unique_amount` counts its 30 tries down, as the source does.
-- The loop that draws a referral code has no bound in the source; `fresh_code` takes a number of
-- rounds, and enough of them give a code (Owners/Referred).
--
-- The ways through one call of an AI service are counted down from its attempts, as in the source,
-- and the rounds of the scheduler are the list of what each of them meets.
--
-- Parameters: whether Telegram takes a message (`delivered`, `answers`) and what it says of a member;
-- which periodic jobs are broken off from outside (`breaks`);
-- the draws of `secrets` (`draw`); `code.strip().upper()` by Python's Unicode tables (`strip_upper`),
-- and what these tables say of digits and white space (`Unicode`, whose laws are what ASCII needs of
-- them); the percentage of a discount by the arithmetic of doubles (`part_of`); the sum with a
-- `relativedelta` of dateutil (`plus_months`); the calls of the AI services, of the gateways and of
-- the cipher; the reader of JSON; the engine of regular expressions; the rows that openpyxl gives; and
-- the fixed sentences of prompts. No law is assumed of any but `Unicode`, and that a draw is below 90.
-- The clock of the buffers and of the circuit breakers is monotonic, from 0.
--
-- Not modelled: message texts, keyboards and routers; the clients of outside services (Zarinpal, Bale,
-- SMS, mail, HTTP, encryption), which are parameters where a result of theirs is used; configuration
-- and migrations; the start and stop of the process; statistics and the export of sheets; and the
-- handlers of the main bot that the files above do not name: the registration (start.py), the forms of
-- a product, the set-up of a bot and the preview, and the administrators' lists, forms and broadcast.
-- The columns `created_at` are kept where the code reads them. Row locks make each operation one step;
-- what the database does to sessions that run at once is not modelled.
pub mod Base
pub mod Models
pub mod Settings
pub mod Wallet
pub mod Orders
pub mod Billing
pub mod Limiter
pub mod Products
pub mod Owners
pub mod Grace
pub mod Examples
pub mod Access
pub mod Chat
pub mod Validators
pub mod Ai
pub mod Platform
pub mod Shops
pub mod Moderation
pub mod Answer
pub mod Web
pub mod Panel
pub mod Import
pub mod Jobs
pub mod Gate
pub mod Admin
pub mod Samples

-- ===== src/Admin/Audited.antt =====
-- What an administrator does to a wallet, in app/bots/main_bot/handlers/admin.py, and the audit log.
use kasb_o_kar_hoshmand.Base.{
  ℕ, ◌≡◌, ◌⊎◌, refl, ap, sym, subst, inl, inr, String, Bool, true, false, none, some, [], ◌∷◌, ◌++◌,
  arith, ltb, length, Bool-cases, Option-cases,
}
use kasb_o_kar_hoshmand.Base.Int.{ℤ, pos, negsuc, neg_part, ltb_ℤ, ◌+ℤ◌, ◌-ℤ◌, ◌<ℤ◌, ◌≤ℤ◌, int_laws}
use kasb_o_kar_hoshmand.Base.Texts.{same_text}
use kasb_o_kar_hoshmand.Base.Chars.{codes, Unicode}
use kasb_o_kar_hoshmand.Base.Strings.{stripped}
use kasb_o_kar_hoshmand.Base.Time.{Instant}
use kasb_o_kar_hoshmand.Base.Table.{get_row, get_row-key}
use kasb_o_kar_hoshmand.Models.{
  ShopOwner-Keyed, ShopOwner, AuditEventType, AuditLogEntry, owner_wallet_corrected,
  admin_correction, Db, Result-cases, ok,
}
use kasb_o_kar_hoshmand.Platform.Audit.{log}
use kasb_o_kar_hoshmand.Wallet.Credited
use kasb_o_kar_hoshmand.Wallet.Invariant.{IsConsistent}
use kasb_o_kar_hoshmand.Wallet.Invariant.Deducted.{deduct_exact}
use kasb_o_kar_hoshmand.Admin.Logged.{add_charge-audit_log, deduct-audit_log}
use kasb_o_kar_hoshmand.Billing.Frame.{SameWallets}
use kasb_o_kar_hoshmand.Admin.Owners.{
  OwnerAnswer, no_such_owner, empty_reason, reason_too_long, insufficient, corrected, report,
  shop_bot_of, id_of, audit, correct, correct_and_audit, owner_wallet_correction_reason_entered,
}

-- Why a correction is refused, by what the administrator is told.
abbrev pub Refuses : ℕ → ℤ → String → Db → OwnerAnswer → Type 0
Refuses owner_id amount note db empty_reason = same_text note "" ≡ true
Refuses owner_id amount note db reason_too_long = ltb 255 (length (codes note)) ≡ true
Refuses owner_id amount note db no_such_owner = get_row owner_id db.owners ≡ none
Refuses owner_id amount note db insufficient =
    (o : ShopOwner) × ((get_row owner_id db.owners ≡ some o)
      × (o.wallet_balance_toman +ℤ amount <ℤ pos 0))
Refuses owner_id amount note db _ = ⊥

-- The correction was refused, with a reason, and no wallet and no entry of the log changed; or the
-- owner's balance changed by the amount, and the log has one more entry, by the administrator.
abbrev pub CorrectedBy : ℕ → ℕ → ℤ → String → Db → OwnerAnswer → Db → Type 0
CorrectedBy admin owner_id amount note db seen db' =
    (Refuses owner_id amount note db seen × SameWallets db db' × (db'.audit_log ≡ db.audit_log))
    ⊎ ((o o' : ShopOwner) × (e : AuditLogEntry) × ((seen ≡ corrected)
          × (get_row owner_id db.owners ≡ some o)
          × (get_row owner_id db'.owners ≡ some o')
          × (o'.wallet_balance_toman ≡ o.wallet_balance_toman +ℤ amount)
          × (db'.audit_log ≡ db.audit_log ++ e ∷ [])
          × (e.event_type ≡ owner_wallet_corrected)
          × (e.actor_telegram_id ≡ some admin)))

report_db :
    (answers : Bool) (what : OwnerAnswer) (a : Db) {seen : OwnerAnswer} {b : Db}
    → report answers what a ≡ ok (seen, b)
    → b ≡ a
report_db answers what a e = ground arith

report_seen :
    (answers : Bool) (what : OwnerAnswer) (a : Db) {seen : OwnerAnswer} {b : Db}
    → report answers what a ≡ ok (seen, b)
    → what ≡ seen
report_seen answers what a e = ground arith

refused :
    (answers : Bool) (what : OwnerAnswer) (admin owner_id : ℕ) (amount : ℤ) (note : String)
    (db : Db) {seen : OwnerAnswer} {db' : Db}
    → Refuses owner_id amount note db what
    → report answers what db ≡ ok (seen, db')
    → CorrectedBy admin owner_id amount note db seen db'
refused answers what admin owner_id amount note db {seen} {db'} why e =
    let same = report_db answers what db {seen = seen} {b = db'} e in
    inl (
      subst (Refuses owner_id amount note db)
          (report_seen answers what db {seen = seen} {b = db'} e) why,
      ground (arith, same),
      ap (λ d. d.audit_log) same,
    )

-- What the wallet's part of a correction does to the owner, by whether it was done.
abbrev Corrects : ℕ → ℤ → ShopOwner → Db → Bool → Db → Type 0
Corrects owner_id amount o db false db1 = (db1 ≡ db) × (o.wallet_balance_toman +ℤ amount <ℤ pos 0)
Corrects owner_id amount o db true db1 =
    (o' : ShopOwner) × ((get_row owner_id db1.owners ≡ some o')
      × (o'.wallet_balance_toman ≡ o.wallet_balance_toman +ℤ amount)
      × (db1.audit_log ≡ db.audit_log))

raises_by : (b amount : ℤ) → amount ≤ℤ pos 0 → b -ℤ pos (neg_part amount) ≡ b +ℤ amount
raises_by b (pos n) down = omega int_laws
raises_by b (negsuc n) down = omega int_laws

unmoved : (b amount : ℤ) → amount ≤ℤ pos 0 → pos (neg_part amount) ≤ℤ pos 0 → b ≡ b +ℤ amount
unmoved b (pos n) down nothing = omega int_laws
unmoved b (negsuc n) down nothing = absurd (omega arith)

falls_short : (b amount : ℤ) → amount ≤ℤ pos 0 → b <ℤ pos (neg_part amount) → b +ℤ amount <ℤ pos 0
falls_short b (pos n) down short = omega int_laws
falls_short b (negsuc n) down short = omega int_laws

correct-Corrects :
    (now : Instant) (owner_id : ℕ) (amount : ℤ) (note : String) (db : Db) {o : ShopOwner}
    {done : Bool} {db1 : Db}
    → IsConsistent db
    → get_row owner_id db.owners ≡ some o
    → correct now owner_id amount note db ≡ ok (done, db1)
    → Corrects owner_id amount o db done db1
unfolding correct
correct-Corrects now owner_id amount note db {o} {done} {db1} h found e =
    elim (Bool-cases (ltb_ℤ (pos 0) amount)) [
      | inl up ↦
          elim (Credited.add_charge_exact now owner_id amount admin_correction none none (some note)
            db {o = o} found) [
              | inl (nothing, refusal) ↦ absurd (ground (arith, up, nothing))
              | inr (positive, (db2, added, row, new, kept, whole)) ↦
                  let after = Credited.credited o amount in
                  done_as {db2 = db2} (ground (arith, up, added, e)) (ground (arith, up, added, e))
                    (after, (row, refl, add_charge-audit_log now owner_id amount note db added))
            ]
      | inr down ↦
          let paid = pos (neg_part amount) in
          let low : amount ≤ℤ pos 0 = ground (arith, down) in
          elim (deduct_exact owner_id paid admin_correction (some note) db {o = o} h found) [
            | inl (nothing, same) ↦
                done_as {db2 = db} (ground (arith, down, same, e)) (ground (arith, down, same, e))
                  (o, (found, unmoved o.wallet_balance_toman amount low nothing, refl))
            | inr (inl (short, same)) ↦
                refused_as {db2 = db} (ground (arith, down, same, e))
                  (ground (arith, down, same, e))
                  (refl, falls_short o.wallet_balance_toman amount low short)
            | inr (inr (positive, enough, (db2, taken, row))) ↦
                done_as {db2 = db2} (ground (arith, down, taken, e))
                  (ground (arith, down, taken, e))
                  (
                    record o { wallet_balance_toman = o.wallet_balance_toman -ℤ paid },
                    (
                      row,
                      raises_by o.wallet_balance_toman amount low,
                      deduct-audit_log owner_id paid admin_correction (some note) db taken,
                    ),
                  )
          ]
    ]
  where
    done_as :
        {db2 : Db}
        → true ≡ done
        → db2 ≡ db1
        → Corrects owner_id amount o db true db2
        → Corrects owner_id amount o db done db1
    done_as {db2} was same k =
        subst (λ d. Corrects owner_id amount o db d db1) was
          (subst (λ x. Corrects owner_id amount o db true x) same k)

    refused_as :
        {db2 : Db}
        → false ≡ done
        → db2 ≡ db1
        → Corrects owner_id amount o db false db2
        → Corrects owner_id amount o db done db1
    refused_as {db2} was same k =
        subst (λ d. Corrects owner_id amount o db d db1) was
          (subst (λ x. Corrects owner_id amount o db false x) same k)

audit_adds :
    (answers : Bool) (event : AuditEventType) (admin owner_id : ℕ) (details : String)
    (what : OwnerAnswer) (db : Db) {seen : OwnerAnswer} {db' : Db}
    → audit answers event admin owner_id details what db ≡ ok (seen, db')
    → (e : AuditLogEntry) × (SameWallets db db'
        × (db'.audit_log ≡ db.audit_log ++ e ∷ [])
        × (e.event_type ≡ event)
        × (e.actor_telegram_id ≡ some admin)
        × (what ≡ seen))
unfolding audit log
audit_adds answers event admin owner_id details what db {seen} {db'} e =
    elim (Result-cases (shop_bot_of owner_id db)) [
      | inr (x, failed) ↦ absurd (ground (arith, failed))
      | inl (b, found) ↦
          let logged = log event (id_of b) (some admin) (some details) db in
          let same : db' ≡ logged.1 =
            report_db answers what logged.1 {seen = seen} (ground (arith, found, e)) in
          (logged.0, ground (arith, same))
    ]

correct_and_audit-CorrectedBy :
    (answers : Bool) (now : Instant) (admin owner_id : ℕ) (amount : ℤ) (note details : String)
    (db : Db) {seen : OwnerAnswer} {db' : Db}
    → IsConsistent db
    → correct_and_audit answers now admin owner_id amount note details db ≡ ok (seen, db')
    → CorrectedBy admin owner_id amount note db seen db'
unfolding correct_and_audit
correct_and_audit-CorrectedBy answers now admin owner_id amount note details db {seen} {db'} h e =
    elim (Option-cases (get_row owner_id db.owners)) [
      | inl missing ↦
          refused answers no_such_owner admin owner_id amount note db {seen = seen} {db' = db'}
            missing (ground (arith, missing, e))
      | inr (owner, found) ↦
          let same : owner.id ≡ owner_id = get_row-key owner_id db.owners found in
          elim (Result-cases (correct now owner.id amount note db)) [
            | inr (x, failed) ↦ absurd (ground (arith, found, failed))
            | inl ((false, db1), kept) ↦
                let (unchanged, short) =
                  correct-Corrects now owner_id amount note db {o = owner} h found
                    (subst (λ i. correct now i amount note db ≡ ok (false, db1)) same kept) in
                refused answers insufficient admin owner_id amount note db {seen = seen} {db' = db'}
                  (owner, (found, short)) (ground (arith, found, kept, unchanged, e))
            | inl ((true, db1), done) ↦
                let (o', (row, moved, logged)) =
                  correct-Corrects now owner_id amount note db {o = owner} h found
                    (subst (λ i. correct now i amount note db ≡ ok (true, db1)) same done) in
                let audited : audit answers owner_wallet_corrected admin owner_id details corrected
                      db1
                    ≡ ok (seen, db') =
                  ground (arith, found, done, e) in
                let (entry, (kept, log_of, event, actor, told)) =
                  audit_adds answers owner_wallet_corrected admin owner_id details corrected db1
                    {seen = seen} {db' = db'} audited in
                inr (
                  owner,
                  o',
                  entry,
                  (
                    sym told,
                    found,
                    ground (arith, row, kept),
                    moved,
                    ground (arith, log_of, logged),
                    event,
                    actor,
                  ),
                )
          ]
    ]

-- When an administrator ends a correction of a wallet with a reason, one of two things happens. Either
-- it is refused, because the reason is empty or too long, the owner is unknown, or the balance would
-- fall below zero, and no wallet and no entry of the audit log changes; or the owner's balance changes
-- by exactly the amount, up or down, and the log has exactly one more entry, which says what was done
-- and by which administrator. The cached balances are right before.
pub wallet_correction-CorrectedBy :
    (u : Unicode) (answers : Bool) (now : Instant) (admin owner_id : ℕ) (amount : ℤ) (text : String)
    (details : String → String) (db : Db) {seen : OwnerAnswer} {db' : Db}
    → IsConsistent db
    → owner_wallet_correction_reason_entered u answers now admin owner_id amount text details db
      ≡ ok (seen, db')
    → CorrectedBy admin owner_id amount (stripped u text) db seen db'
unfolding owner_wallet_correction_reason_entered
wallet_correction-CorrectedBy u answers now admin owner_id amount text details db {seen} {db'} h e =
    let note = stripped u text in
    elim (Bool-cases (same_text note "")) [
      | inl empty ↦
          refused answers empty_reason admin owner_id amount note db {seen = seen} {db' = db'} empty
            (ground (arith, empty, e))
      | inr given ↦ elim (Bool-cases (ltb 255 (length (codes note)))) [
        | inl long ↦
            refused answers reason_too_long admin owner_id amount note db {seen = seen} {db' = db'}
              long (ground (arith, given, long, e))
        | inr short ↦
            correct_and_audit-CorrectedBy answers now admin owner_id amount note (details note) db
              {seen = seen} {db' = db'} h (ground (arith, given, short, e))
      ]
    ]

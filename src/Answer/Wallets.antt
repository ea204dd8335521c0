-- ===== src/Answer/Wallets.antt =====
-- The wallets under the task that answers a batch of messages, and under whatever it meets.
use kasb_o_kar_hoshmand.Base.{
  ℕ, ◌≡◌, inl, inr, String, Bool, none, List, [], ◌∷◌, Option-cases, arith,
}
use kasb_o_kar_hoshmand.Base.Time.{Instant}
use kasb_o_kar_hoshmand.Base.Table.{get_row}
use kasb_o_kar_hoshmand.Models.{ShopBot-Keyed, ModerationRule, Db, Result-cases}
use kasb_o_kar_hoshmand.Settings.{get_admin_settings}
use kasb_o_kar_hoshmand.Moderation.{Engine}
use kasb_o_kar_hoshmand.Chat.Prompt.{Sentences}
use kasb_o_kar_hoshmand.Ai.Circuit.{Circuits}
use kasb_o_kar_hoshmand.Wallet.Reach.{IsSound}
use kasb_o_kar_hoshmand.Answer.Turn.{Ask, generate_and_send_reply}
use kasb_o_kar_hoshmand.Answer.Debounce.{
  Pending, join_lines, committed, take_buffer, process_batch, wait_then_process,
}
use kasb_o_kar_hoshmand.Answer.Charged.{Given, generate_and_send_reply-Settles, Charges-IsSound}

module _ (say : Sentences) (ask : Ask) (answers : Bool) (engine : Engine)
    (details : ModerationRule → String) where
  missing_bot :
      (now : Instant) (start shop customer : ℕ) (text : String) (db : Db) (circuits : Circuits)
      → get_row shop db.shop_bots ≡ none
      → committed db
          (generate_and_send_reply say ask answers engine details now start shop customer text db
            circuits).0
        ≡ db
  unfolding generate_and_send_reply
  missing_bot now start shop customer text db circuits missing =
      rw (missing, generate_and_send_reply)

  turn-IsSound :
      (now : Instant) (start shop customer : ℕ) (text : String) (db : Db) (circuits : Circuits)
      → IsSound db
      → IsSound (
          committed db
            (generate_and_send_reply say ask answers engine details now start shop customer text db
              circuits).0)
  turn-IsSound now start shop customer text db circuits h =
      let turn =
        (generate_and_send_reply say ask answers engine details now start shop customer text db
          circuits).0 in
      elim (Option-cases (get_row shop db.shop_bots)) [
        | inl missing ↦ rw (missing_bot now start shop customer text db circuits missing) h
        | inr (shop_bot, found) ↦ elim (Result-cases turn) [
          | inr (x, failed) ↦ rw failed h
          | inl ((reply, db'), replied) ↦ rw replied (
              Charges-IsSound (get_admin_settings db).0
                (Given say ask answers now start text circuits) shop_bot.shop_owner_id reply db db'
                (generate_and_send_reply-Settles say ask answers engine details now start customer
                  text db circuits shop found replied)
                h)
        ]
      ]

  batch-IsSound :
      (now : Instant) (start shop customer : ℕ) (messages : List String) (db : Db)
      (circuits : Circuits)
      → IsSound db
      → IsSound
          (process_batch say ask answers engine details now start shop customer messages db
            circuits).0
  unfolding process_batch
  batch-IsSound now start shop customer [] db circuits h = h
  batch-IsSound now start shop customer (m ∷ ms) db circuits h =
      turn-IsSound now start shop customer (join_lines (m ∷ ms)) db circuits h

  -- Whatever the rules, the service, Telegram and the tables do to a task that answers a batch of
  -- messages, sound wallets are sound after it. Nothing is left then of the batch, nor of its task: it is
  -- answered once at most, also where the answer failed.
  pub wait_then_process-IsSound :
      (now : Instant) (start shop customer : ℕ) (p : Pending) (db : Db) (circuits : Circuits)
      → IsSound db
      → let (p', db', circuits') =
          wait_then_process say ask answers engine details now start shop customer p db circuits in
        IsSound db'
        × (p'.buffers shop customer ≡ [])
        × (p'.started_at shop customer ≡ none)
        × (p'.tasks shop customer ≡ none)
  unfolding wait_then_process take_buffer
  wait_then_process-IsSound now start shop customer p db circuits h = (
    batch-IsSound now start shop customer (p.buffers shop customer) db circuits h,
    ground arith,
    ground arith,
    ground arith,
  )

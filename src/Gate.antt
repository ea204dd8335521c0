-- ===== src/Gate.antt =====
-- `ChannelGateMiddleware` and `MenuButtonEscapeMiddleware` of app/bots/common/middlewares.py: what
-- stands before the handlers of the main bot.
mod Examples
use kasb_o_kar_hoshmand.Base.{
  ℕ, ◌-◌, ◌≡◌, ◌⊎◌, refl, inl, inr, String, Bool, true, false, not, ◌&&◌, Option, none, some, List,
  [], ◌∷◌, ltb, ◌==◌, if◌then◌else◌, arith, Bool-cases, Option-cases, List-cases,
}
use kasb_o_kar_hoshmand.Base.Texts.{same_text}
use kasb_o_kar_hoshmand.Base.Time.{Instant, seconds}
use kasb_o_kar_hoshmand.Models.{MandatoryChannel, Db}
use kasb_o_kar_hoshmand.Shops.Channels.{get_missing_channels, get_mandatory_channels}

abbrev pub pass_cache_ttl : ℕ
pass_cache_ttl = seconds 300

-- `_pass_cache`: when a user passed last
abbrev pub PassCache : Type 0
PassCache = ℕ → Option Instant

-- An event that comes to the gate: its user, if it has one, the tables and the bot, if they were put
-- beside it, of which the gate asks `get_chat_member`, and when it comes.
pub record Event : Type 0 where
  pub from_user : Option ℕ
  pub session : Option Db
  pub bot : Option (String → ℕ → Option String)
  pub now : Instant

-- What the gate looks at: who sent the event and when, what Telegram says of the members then, and the
-- tables.
pub record Visit : Type 0 where
  pub user_id : ℕ
  pub now : Instant
  pub get_chat_member : String → ℕ → Option String
  pub db : Db

-- nothing, if the event has no user or came without tables or without a bot
unfoldable pub visit_of : Event → Option Visit
visit_of e = elim e.from_user [
  | none ↦ none
  | some user ↦ elim e.session [
    | none ↦ none
    | some db ↦ elim e.bot [
      | none ↦ none
      | some members ↦
          some (record { user_id = user; now = e.now; get_chat_member = members; db = db })
    ]
  ]
]

abbrev pub missing_of : Visit → List MandatoryChannel
missing_of v = get_missing_channels v.get_chat_member (get_mandatory_channels v.db) v.user_id

abbrev pub is_fresh : Instant → Option Instant → Bool
is_fresh now none = false
is_fresh now (some t) = ltb (now - t) pass_cache_ttl

abbrev pub remember : Visit → PassCache → PassCache
remember v cache u = if u == v.user_id then some v.now else cache u

-- the channels are looked up, where there are any
unfoldable pub check_channels : Visit → PassCache → Bool × PassCache
check_channels v cache = elim (get_mandatory_channels v.db) [
  | [] ↦ (true, cache)
  | c ∷ cs ↦ elim (missing_of v) [ [] ↦ (true, remember v cache) | m ∷ ms ↦ (false, cache) ]
]

-- `is_admin_id` is membership in `settings.admin_ids`; whether the handler is called, and the cache
module _ (is_admin_id : ℕ → Bool) where
  unfoldable pub gate_visit : Visit → PassCache → Bool × PassCache
  unfolding check_channels
  gate_visit v cache =
      if is_admin_id v.user_id
      then (true, cache)
      else if is_fresh v.now (cache v.user_id)
      then (true, cache)
      else check_channels v cache

  unfoldable pub channel_gate : Event → PassCache → Bool × PassCache
  unfolding gate_visit
  channel_gate e cache = elim (visit_of e) [ none ↦ (true, cache) | some v ↦ gate_visit v cache ]

  -- the cache after some events, the last of them first
  unfoldable pub cache_after : List Event → PassCache
  unfolding channel_gate
  cache_after [] u = none
  cache_after (e ∷ es) u = (channel_gate e (cache_after es)).1 u

  -- At an event at that instant the user was in every mandatory channel.
  abbrev pub JoinedAt : List Event → ℕ → Instant → Type 0
  JoinedAt [] u t = ⊥
  JoinedAt (e ∷ es) u t =
      ((v : Visit) × ((visit_of e ≡ some v) × (v.user_id ≡ u) × (v.now ≡ t) × (missing_of v ≡ [])))
      ⊎ JoinedAt es u t

  -- An entry that is in the cache after a visit was there before, or is the visit's.
  visit-JoinedAt :
      (v : Visit) (cache : PassCache) (u : ℕ) {t : Instant}
      → (gate_visit v cache).1 u ≡ some t
      → (cache u ≡ some t) ⊎ ((v.user_id ≡ u) × (v.now ≡ t) × (missing_of v ≡ []))
  unfolding gate_visit check_channels
  visit-JoinedAt v cache u {t} e = elim (Bool-cases (is_admin_id v.user_id)) [
    | inl admin ↦ inl (ground (arith, admin, e))
    | inr user ↦ elim (Bool-cases (is_fresh v.now (cache v.user_id))) [
      | inl fresh ↦ inl (ground (arith, user, fresh, e))
      | inr old ↦ elim (List-cases (get_mandatory_channels v.db)) [
        | inl open' ↦ inl (ground (arith, user, old, open', e))
        | inr (c, cs, some_channels) ↦ elim (List-cases (missing_of v)) [
          | inr (m, ms, out) ↦ inl (ground (arith, user, old, some_channels, out, e))
          | inl joined ↦ elim (Bool-cases (u == v.user_id)) [
            | inl same ↦ inr (
              ground (arith, same),
              ground (arith, user, old, some_channels, joined, same, e),
              joined,
            )
            | inr other ↦ inl (ground (arith, user, old, some_channels, joined, other, e))
          ]
        ]
      ]
    ]
  ]

  gate_visit_passed :
      (v : Visit) (cache : PassCache)
      → (gate_visit v cache).0 ≡ true
      → (is_admin_id v.user_id ≡ true)
        ⊎ ((get_mandatory_channels v.db ≡ [])
            ⊎ ((missing_of v ≡ [])
                ⊎ ((t : Instant) × ((cache v.user_id ≡ some t)
                      × (ltb (v.now - t) pass_cache_ttl ≡ true)))))
  unfolding gate_visit check_channels
  gate_visit_passed v cache e = elim (Bool-cases (is_admin_id v.user_id)) [
    | inl admin ↦ inl admin
    | inr user ↦ elim (List-cases (get_mandatory_channels v.db)) [
      | inl open' ↦ inr (inl open')
      | inr (c, cs, some_channels) ↦ elim (List-cases (missing_of v)) [
        | inl joined ↦ inr (inr (inl joined))
        | inr (m, ms, out) ↦ elim (Option-cases (cache v.user_id)) [
          | inl unseen ↦ absurd (ground (arith, user, some_channels, out, unseen, e))
          | inr (t, cached) ↦ elim (Bool-cases (ltb (v.now - t) pass_cache_ttl)) [
            | inl fresh ↦ inr (inr (inr (t, (cached, fresh))))
            | inr old ↦ absurd (ground (arith, user, some_channels, out, cached, old, e))
          ]
        ]
      ]
    ]
  ]

  cache_after-JoinedAt :
      (es : List Event) (u : ℕ) {t : Instant} → cache_after es u ≡ some t → JoinedAt es u t
  unfolding cache_after channel_gate
  cache_after-JoinedAt [] u {t} h = absurd (ground (arith, h))
  cache_after-JoinedAt (e ∷ es) u {t} h = elim (Option-cases (visit_of e)) [
    | inl lacking ↦ inr (cache_after-JoinedAt es u (ground (arith, lacking, h)))
    | inr (v, seen) ↦
        let at : (gate_visit v (cache_after es)).1 u ≡ some t = ground (arith, seen, h) in
        elim (visit-JoinedAt v (cache_after es) u at) [
          | inl earlier ↦ inr (cache_after-JoinedAt es u earlier)
          | inr (same, then', all) ↦ inl (v, (seen, same, then', all))
        ]
  ]

  -- An event reaches its handler only if it has no user, or came without tables or without a bot, or
  -- comes from an admin, if there is no mandatory channel, if the user is in all of them, or if the user
  -- was in all of them at an earlier event, less than 300 seconds ago by the clock of the process.
  pub channel_gate_passed :
      (es : List Event) (e : Event)
      → (channel_gate e (cache_after es)).0 ≡ true
      → (visit_of e ≡ none)
        ⊎ ((v : Visit) × ((visit_of e ≡ some v)
              × ((is_admin_id v.user_id ≡ true)
                  ⊎ ((get_mandatory_channels v.db ≡ [])
                      ⊎ ((missing_of v ≡ [])
                          ⊎ ((t : Instant) × (JoinedAt es v.user_id t
                                × (ltb (v.now - t) pass_cache_ttl ≡ true))))))))
  unfolding channel_gate
  channel_gate_passed es e h = elim (Option-cases (visit_of e)) [
    | inl lacking ↦ inl lacking
    | inr (v, seen) ↦
        let passed : (gate_visit v (cache_after es)).0 ≡ true = ground (arith, seen, h) in
        inr (
          v,
          (
            seen,
            elim (gate_visit_passed v (cache_after es) passed) [
              | inl admin ↦ inl admin
              | inr (inl open') ↦ inr (inl open')
              | inr (inr (inl joined)) ↦ inr (inr (inl joined))
              | inr (inr (inr (t, (cached, fresh)))) ↦
                  inr (inr (inr (t, (cache_after-JoinedAt es v.user_id cached, fresh))))
            ],
          ),
        )
  ]

-- The menu's buttons end what a chat was asked for, but in a preview. The state is the raw name that
-- aiogram keeps, and the handler sees what is left of it.
unfoldable pub escape_menu_button : (String → Bool) → String → Option String → Option String
escape_menu_button is_known_button text raw_state = elim raw_state [
  | none ↦ none
  | some current ↦
      if is_known_button text && not (same_text current "PreviewStates:active")
      then none
      else some current
]

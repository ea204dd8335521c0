-- ===== src/Gate/Examples.antt =====
-- Runs of the gate of the mandatory channels.
use kasb_o_kar_hoshmand.Base.{
  ℕ, ◌-◌, ◌≡◌, ◌⊎◌, refl, String, Bool, true, false, Option, none, some, [], ◌∷◌, ltb,
}
use kasb_o_kar_hoshmand.Base.Time.{Instant, seconds}
use kasb_o_kar_hoshmand.Shops.Channels.{get_mandatory_channels}
use kasb_o_kar_hoshmand.Gate.{
  Event, Visit, visit_of, pass_cache_ttl, missing_of, channel_gate, cache_after, JoinedAt,
  channel_gate_passed,
}
use kasb_o_kar_hoshmand.Samples.{shop}

abbrev no_admin : ℕ → Bool
no_admin i = false

abbrev event_at : Instant → Option String → Event
event_at now status = record {
  from_user = some 9001;
  session = some shop;
  bot = some (λ c u. status);
  now = now;
}

-- a member comes, leaves the channel, and comes again a minute later
abbrev joined : Event
joined = event_at (seconds 10) (some "member")

abbrev left : Event
left = event_at (seconds 70) (some "left")

let_in : (channel_gate no_admin left (cache_after no_admin (joined ∷ []))).0 ≡ true
unfolding visit_of kasb_o_kar_hoshmand.Gate.cache_after kasb_o_kar_hoshmand.Gate.channel_gate
    kasb_o_kar_hoshmand.Gate.gate_visit kasb_o_kar_hoshmand.Gate.check_channels
    kasb_o_kar_hoshmand.Shops.Channels.get_mandatory_channels
    kasb_o_kar_hoshmand.Shops.Channels.get_missing_channels
let_in = refl

-- an event without a bot is let through
unchecked : (channel_gate no_admin (record left { bot = none }) (cache_after no_admin [])).0 ≡ true
unfolding visit_of kasb_o_kar_hoshmand.Gate.channel_gate
unchecked = refl

channel_gate_passed_example :
    (visit_of left ≡ none)
    ⊎ ((v : Visit) × ((visit_of left ≡ some v)
          × ((no_admin v.user_id ≡ true)
              ⊎ ((get_mandatory_channels v.db ≡ [])
                  ⊎ ((missing_of v ≡ [])
                      ⊎ ((t : Instant) × (JoinedAt no_admin (joined ∷ []) v.user_id t
                            × (ltb (v.now - t) pass_cache_ttl ≡ true))))))))
channel_gate_passed_example = channel_gate_passed no_admin (joined ∷ []) left let_in

-- ===== src/Shops/Primary.antt =====
-- The primary channel, in app/services/channel_service.py.
use kasb_o_kar_hoshmand.Base.{
  ℕ, ◌≤◌, ◌≡◌, refl, inl, inr, subst, String, Bool, true, false, Option, none, some, List, [], ◌∷◌,
  ◌++◌, arith, head_of, sum_of, sum_of-append, where_rows, where_rows_pass, All, All-where_rows,
  if◌then◌else◌, Bool-cases, Option-cases, List-cases, where_rows-snoc,
}
use kasb_o_kar_hoshmand.Base.Texts.{same_text}
use kasb_o_kar_hoshmand.Base.Table.{get_row, Unique, Rows-self, sum_of-save}
use kasb_o_kar_hoshmand.Models.{MandatoryChannel-Keyed, MandatoryChannel, Db, ok}
use kasb_o_kar_hoshmand.Shops.Channels.{get_primary_channel, demote_primary, create_channel}

-- How many channels are the primary one.
abbrev pub one_if_primary : MandatoryChannel → ℕ
one_if_primary c = if c.is_primary then 1 else 0

abbrev pub primaries : Db → ℕ
primaries db = sum_of one_if_primary db.channels

head_All :
    (P : MandatoryChannel → Type 0) (cs : List MandatoryChannel) {c : MandatoryChannel}
    → All P cs
    → head_of cs ≡ some c
    → P c
head_All P [] {c} h e = absurd (ground arith)
head_All P (x ∷ xs) {c} h e = subst P {x = x} (ground arith) h.0

no_head :
    (cs : List MandatoryChannel)
    → head_of (where_rows (λ c. c.is_primary) cs) ≡ none
    → sum_of one_if_primary cs ≡ 0
no_head [] e = refl
no_head (c ∷ cs) e = elim (Bool-cases c.is_primary) [
  | inl yes' ↦ absurd (ground (arith, yes'))
  | inr no' ↦ ground (arith, no', no_head cs)
]

demote_primary-none :
    (db : Db) → Unique db.channels → primaries db ≤ 1 → primaries (demote_primary true db) ≡ 0
unfolding demote_primary get_primary_channel
demote_primary-none db u few =
    elim (Option-cases (head_of (where_rows (λ c. c.is_primary) db.channels))) [
      | inl nothing ↦ ground (arith, nothing, no_head db.channels)
      | inr (old, first) ↦
          let primary : old.is_primary ≡ true =
            head_All (λ c. c.is_primary ≡ true) _ {c = old}
              (where_rows_pass (λ c. c.is_primary) db.channels) first in
          let stands : get_row old.id db.channels ≡ some old =
            head_All (λ c. get_row c.id db.channels ≡ some c) _ {c = old}
              (All-where_rows _ (λ c. c.is_primary) db.channels (Rows-self db.channels u)) first in
          ground (
            arith,
            first,
            primary,
            sum_of-save one_if_primary old (record old { is_primary = false }) db.channels stands,
          )
    ]

none_primary :
    (cs : List MandatoryChannel)
    → sum_of one_if_primary cs ≡ 0
    → where_rows (λ c. c.is_primary) cs ≡ []
none_primary [] e = refl
none_primary (c ∷ cs) e = ground (arith, none_primary cs)

added_first :
    (cs : List MandatoryChannel) (c : MandatoryChannel)
    → sum_of one_if_primary cs ≡ 0
    → c.is_primary ≡ true
    → (sum_of one_if_primary (cs ++ c ∷ []) ≤ 1)
      × (head_of (where_rows (λ o. o.is_primary) (cs ++ c ∷ [])) ≡ some c)
added_first cs c e first = ground (
  arith,
  first,
  sum_of-append one_if_primary cs (c ∷ []),
  where_rows-snoc (λ o. o.is_primary) cs c,
  none_primary cs e,
)

head_of-nil : (cs : List MandatoryChannel) → head_of (cs ++ []) ≡ head_of cs
head_of-nil [] = refl
head_of-nil (c ∷ cs) = refl

added_second :
    (cs : List MandatoryChannel) (c : MandatoryChannel)
    → c.is_primary ≡ false
    → (sum_of one_if_primary (cs ++ c ∷ []) ≡ sum_of one_if_primary cs)
      × (head_of (where_rows (λ o. o.is_primary) (cs ++ c ∷ []))
          ≡ head_of (where_rows (λ o. o.is_primary) cs))
added_second cs c second = ground (
  arith,
  second,
  sum_of-append one_if_primary cs (c ∷ []),
  where_rows-snoc (λ o. o.is_primary) cs c,
  head_of-nil (where_rows (λ o. o.is_primary) cs),
)

demote_nothing : (db : Db) → demote_primary false db ≡ db
unfolding demote_primary
demote_nothing db = refl

-- At most one channel stays the primary one when a channel is made: a new primary channel takes the
-- place of the one before, and another leaves it.
pub create_channel-primaries :
    (channel_id name : String) (invite_link : Option String) (is_primary : Bool) (db : Db)
    {c : MandatoryChannel} {db' : Db}
    → Unique db.channels
    → primaries db ≤ 1
    → create_channel channel_id name invite_link is_primary db ≡ ok (c, db')
    → (primaries db' ≤ 1)
      × (get_primary_channel db' ≡ (if is_primary then some c else get_primary_channel db))
unfolding create_channel get_primary_channel
create_channel-primaries channel_id name invite_link is_primary db {c} {db'} u few e =
    let db1 = demote_primary is_primary db in
    elim (List-cases (where_rows (λ o. same_text o.channel_id channel_id) db1.channels)) [
      | inr (o, os, taken) ↦ absurd (ground (arith, taken))
      | inl free ↦
          let made : db'.channels ≡ db1.channels ++ c ∷ [] = ground (arith, free) in
          let marked : c.is_primary ≡ is_primary = ground (arith, free) in
          elim (Bool-cases is_primary) [
            | inl first ↦ ground (
              arith,
              made,
              marked,
              first,
              demote_primary-none db u few,
              added_first (demote_primary true db).channels c,
            )
            | inr second ↦
                ground (arith, made, marked, second, demote_nothing db, added_second db.channels c)
          ]
    ]

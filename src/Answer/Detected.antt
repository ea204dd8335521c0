-- ===== src/Answer/Detected.antt =====
-- What the classifier of app/services/order_detection_service.py may propose, and what
-- `_detect_and_notify_order` of app/bots/shop_bot/handlers/customer.py stores of it.
use kasb_o_kar_hoshmand.Base.{
  ℕ, ◌≡◌, refl, inl, inr, String, Bool, true, false, Option, none, some, List, [], ◌∷◌, arith,
  Bool-cases, Option-cases, ◌==◌,
}
use kasb_o_kar_hoshmand.Base.Int.{ℤ, pos, negsuc}
use kasb_o_kar_hoshmand.Base.Texts.{same_text}
use kasb_o_kar_hoshmand.Base.Json.{Json, null, str, obj, Fields, get_field, as_number}
use kasb_o_kar_hoshmand.Base.Table.{get_row}
use kasb_o_kar_hoshmand.Models.{
  ShopOwner-Keyed, ShopBot-Keyed, Product-Keyed, Product, OrderType, Result, Result-cases, ok,
  raised,
}
use kasb_o_kar_hoshmand.Answer.Detect.{
  Reader, Candidate, Detected, unsure, completed, text_field, is_field, listed, estimated_value,
  valid_product_id, valid_quantity, read_candidate, read_question, read_reply, extract_json,
}

-- A candidate names a product that is listed, if any, and a quantity only of a product; it has a
-- summary, and is a consultation for a consultant.
pub record IsChecked (products : List Product) (consulting : Bool) (c : Candidate) : Type 0 where
  pub product : (i : ℕ) → c.product_id ≡ some i → (p : Product) × (get_row i products ≡ some p)
  pub quantity : c.product_id ≡ none → c.quantity ≡ none
  pub summary : same_text c.summary "" ≡ false
  pub type : consulting ≡ true → c.type ≡ OrderType.consultation

abbrev pub Checked : List Product → Bool → Detected → Type 0
Checked products consulting (unsure question) = same_text question "" ≡ false
Checked products consulting (completed c) = IsChecked products consulting c

abbrev pub CheckedOption : List Product → Bool → Option Detected → Type 0
CheckedOption products consulting none = Unit
CheckedOption products consulting (some d) = Checked products consulting d

abbrev pub CheckedResult : List Product → Bool → Result (Option Detected) → Type 0
CheckedResult products consulting (ok d) = CheckedOption products consulting d
CheckedResult products consulting (raised e) = Unit

listed_row :
    (products : List Product) (n : ℤ) (i : ℕ)
    → listed products n ≡ some i
    → (p : Product) × (get_row i products ≡ some p)
listed_row [] n i e = absurd (ground arith)
listed_row (p ∷ ps) (negsuc n) i e = absurd (ground arith)
listed_row (p ∷ ps) (pos n) i e = elim (Bool-cases (p.id == n)) [
  | inl here ↦ (p, ground (arith, here))
  | inr there ↦
      let (q, found) = listed_row ps (pos n) i (ground (arith, there)) in
      elim (Bool-cases (p.id == i)) [
        | inl same ↦ (p, ground (arith, same))
        | inr other ↦ (q, ground (arith, found, other))
      ]
]

valid_product_id_row :
    (products : List Product) (fields : Fields) (found : Option ℕ) (i : ℕ)
    → valid_product_id products fields ≡ ok found
    → found ≡ some i
    → (p : Product) × (get_row i products ≡ some p)
unfolding valid_product_id
valid_product_id_row products fields found i e h =
    elim (Option-cases (as_number (get_field "product_id" fields))) [
      | inl missing ↦ absurd (ground (arith, missing))
      | inr ((whole, above), number) ↦ elim (Option-cases whole) [
        | inl odd ↦ absurd (ground (arith, number, odd))
        | inr (n, integral) ↦ listed_row products n i (ground (arith, number, integral))
      ]
    ]

read_candidate-IsChecked :
    (reader : Reader) (products : List Product) (consulting : Bool) (fields : Fields)
    → CheckedResult products consulting (read_candidate reader products consulting fields)
unfolding read_candidate
read_candidate-IsChecked reader products consulting fields =
    let summary = text_field reader 2000 "summary" fields in
    elim (Bool-cases (same_text summary "")) [
      | inl empty ↦ rw empty tt
      | inr named ↦ rw named (elim (Result-cases (estimated_value fields)) [
        | inr (x, failed) ↦ rw failed tt
        | inl (value, valued) ↦ rw valued (elim (Result-cases (valid_product_id products fields)) [
          | inr (x, failed) ↦ rw failed tt
          | inl (product_id, chosen) ↦ rw chosen (elim (Result-cases (valid_quantity fields)) [
            | inr (x, failed) ↦ rw failed tt
            | inl (quantity, counted) ↦ rw counted (record {
              product = λ i h. valid_product_id_row products fields product_id i chosen h;
              quantity = λ h. rw h refl;
              summary = named;
              type = λ h. rw h refl;
            })
          ])
        ])
      ])
    ]

read_question-Checked :
    (reader : Reader) (products : List Product) (consulting : Bool) (fields : Fields)
    → CheckedOption products consulting (read_question reader fields)
read_question-Checked reader products consulting fields =
    elim (Bool-cases (same_text (text_field reader 1000 "clarifying_question" fields) "")) [
      | inl empty ↦ rw empty tt
      | inr asked ↦ rw asked asked
    ]

read_fields-Checked :
    (reader : Reader) (products : List Product) (consulting : Bool) (raw : String) (fields : Fields)
    → extract_json reader raw ≡ some (obj fields)
    → CheckedResult products consulting (read_reply reader products consulting (str raw))
unfolding read_reply
read_fields-Checked reader products consulting raw fields e =
    rw (e, read_reply)
      (elim (Bool-cases (is_field "unsure" "status" fields)) [
        | inl open' ↦ rw open' (read_question-Checked reader products consulting fields)
        | inr closed ↦ rw closed (elim (Bool-cases (is_field "completed" "status" fields)) [
          | inl done ↦ rw done (read_candidate-IsChecked reader products consulting fields)
          | inr none_yet ↦ rw none_yet tt
        ])
      ])

-- What is read off a reply of the classifier is checked, whatever the reply.
pub read_reply-Checked :
    (reader : Reader) (products : List Product) (consulting : Bool) (reply : Json)
    → CheckedResult products consulting (read_reply reader products consulting reply)
unfolding read_reply
read_reply-Checked reader products consulting (str raw) =
    elim (Option-cases (extract_json reader raw)) [
      | inl bad ↦ rw (bad, read_reply) tt
      | inr (obj fields, e) ↦ read_fields-Checked reader products consulting raw fields e
      | inr (null, e) ↦ rw (e, read_reply) tt
      | inr (Json.bool b, e) ↦ rw (e, read_reply) tt
      | inr (Json.int n, e) ↦ rw (e, read_reply) tt
      | inr (Json.float n b, e) ↦ rw (e, read_reply) tt
      | inr (str s, e) ↦ rw (e, read_reply) tt
      | inr (Json.arr s, e) ↦ rw (e, read_reply) tt
    ]
read_reply-Checked reader products consulting null = tt
read_reply-Checked reader products consulting (Json.bool b) = tt
read_reply-Checked reader products consulting (Json.int n) = tt
read_reply-Checked reader products consulting (Json.float n b) = tt
read_reply-Checked reader products consulting (Json.arr s) = tt
read_reply-Checked reader products consulting (obj s) = tt

-- ===== src/Answer/Detect.antt =====
-- app/services/order_detection_service.py and `_detect_and_notify_order` of
-- app/bots/shop_bot/handlers/customer.py: orders that a conversation came to. The classifier's
-- sentences, the reader of JSON and the texts of its values are parameters.
use kasb_o_kar_hoshmand.Base.{
  ℕ, String, Bool, true, false, Option, none, some, List, [], ◌∷◌, ◌++◌, map, ◌==◌, if◌then◌else◌,
}
use kasb_o_kar_hoshmand.Base.Int.{ℤ, pos, negsuc, pos_part}
use kasb_o_kar_hoshmand.Base.Texts.{same_text}
use kasb_o_kar_hoshmand.Base.Chars.{Text, codes, Unicode}
use kasb_o_kar_hoshmand.Base.Strings.{
  stripped, strip_both, first_chars, without_prefix, remove_prefix, braced,
}
use kasb_o_kar_hoshmand.Base.Json.{Json, null, str, obj, Fields, get_field, as_number}
use kasb_o_kar_hoshmand.Base.Time.{Instant}
use kasb_o_kar_hoshmand.Models.{
  ShopOwner-Keyed, ShopBot-Keyed, Product, OrderType, Result, ok, raised, value_error,
  attribute_error, ◌>>=◌,
}
use kasb_o_kar_hoshmand.Chat.Prompt.{join}
use kasb_o_kar_hoshmand.Validators.{printed}
use kasb_o_kar_hoshmand.Ai.Client.{AiCallResult}
use kasb_o_kar_hoshmand.Ai.Circuit.{Circuits}
use kasb_o_kar_hoshmand.Ai.Pool.{AiService, is_service_error, run}
use kasb_o_kar_hoshmand.Answer.Turn.{Request, Ask}

-- The templates are given a block on the products; each is for a shop or for a consultant.
pub record Classifier : Type 0 where
  pub template : Bool → Text → Text
  pub products_label : Bool → Text
  pub no_products : Bool → Text
  pub user_prompt : String

-- `loads` is `json.loads`, with `none` for a JSONDecodeError; `shown` is `str` of a value that is
-- no text, and the empty text for one that counts as false.
pub record Reader : Type 0 where
  pub unicode : Unicode
  pub loads : String → Option Json
  pub shown : Json → String

pub record Candidate : Type 0 where
  pub type : OrderType
  pub summary : String
  pub estimated_value_toman : Option ℤ
  pub product_id : Option ℕ
  pub quantity : Option ℕ
  pub customer_phone : Option String
  pub customer_address : Option String

pub data Detected : Type 0 where
  unsure : String → Detected
  completed : Candidate → Detected

abbrev pub products_block : Classifier → Bool → List Product → Text
products_block say consulting [] = say.no_products consulting
products_block say consulting (p ∷ ps) =
    join (codes "\n") (
      say.products_label consulting
      ∷ map (λ q. printed q.id ++ (codes " | " ++ codes q.name)) (p ∷ ps))
    ++ codes "\n\n"

unfoldable pub build_classifier_system_prompt : Classifier → List Product → Bool → Text
build_classifier_system_prompt say products consulting =
    say.template consulting (products_block say consulting products)

module _ (reader : Reader) where
  -- a fence of Markdown is taken off
  abbrev pub unfenced : String → String
  unfenced raw =
      let cleaned = stripped reader.unicode raw in
      elim (without_prefix "```" cleaned) [
        | none ↦ cleaned
        | some rest ↦
            stripped reader.unicode (remove_prefix "json" (strip_both (λ c. c == 96) cleaned))
      ]

  unfoldable pub extract_json : String → Option Json
  extract_json raw = elim (reader.loads (unfenced raw)) [
    | some v ↦ some v
    | none ↦ elim (braced (unfenced raw)) [ none ↦ none | some part ↦ reader.loads part ]
  ]

  -- `str(data.get(name) or "").strip()[:n]`
  abbrev pub text_field : ℕ → String → Fields → String
  text_field n name fields = first_chars n (
      stripped reader.unicode
        (elim (get_field name fields) [ str s ↦ s | null ↦ "" | other ↦ reader.shown other ]))

  -- a text that is not empty when stripped, else None
  abbrev pub optional_field : ℕ → String → Fields → Option String
  optional_field n name fields = elim (get_field name fields) [
    | str s ↦
        let kept = stripped reader.unicode s in
        if same_text kept "" then none else some (first_chars n kept)
    | _ ↦ none
  ]

-- a field that is the text
abbrev pub is_field : String → String → Fields → Bool
is_field text name fields = elim (get_field name fields) [ str s ↦ same_text s text | _ ↦ false ]

-- `int(v)` of a number; NaN and the infinities have none
abbrev pub whole : Option ℤ → Result ℤ
whole none = raised value_error
whole (some n) = ok n

unfoldable pub estimated_value : Fields → Result (Option ℤ)
estimated_value fields = elim (as_number (get_field "estimated_value_toman" fields)) [
  | none ↦ ok none
  | some (v, above) ↦ (do n ← whole v; ok (some n))
]

-- the id is one of the products'
abbrev pub listed : List Product → ℤ → Option ℕ
listed [] n = none
listed (p ∷ ps) (pos n) = let rest = listed ps (pos n) in if p.id == n then some n else rest
listed (p ∷ ps) (negsuc n) = none

unfoldable pub valid_product_id : List Product → Fields → Result (Option ℕ)
valid_product_id products fields = elim (as_number (get_field "product_id" fields)) [
  | none ↦ ok none
  | some (v, above) ↦ (do n ← whole v; ok (listed products n))
]

unfoldable pub valid_quantity : Fields → Result (Option ℕ)
valid_quantity fields = elim (as_number (get_field "quantity" fields)) [
  | none ↦ ok none
  | some (v, above) ↦ if above then (do n ← whole v; ok (some (pos_part n))) else ok none
]

abbrev pub type_of : Bool → Bool → OrderType
type_of true is_order = OrderType.consultation
type_of false true = OrderType.order
type_of false false = OrderType.consultation

module _ (reader : Reader) where
  -- a conversation that came to an order, as it is read
  unfoldable pub read_candidate : List Product → Bool → Fields → Result (Option Detected)
  read_candidate products consulting fields =
      let summary = text_field reader 2000 "summary" fields in
      if same_text summary "" then ok none else (do
        value ← estimated_value fields
        product_id ← valid_product_id products fields
        quantity ← valid_quantity fields
        ok (
            some (
              completed (record {
                type = type_of consulting (is_field "order" "type" fields);
                summary = summary;
                estimated_value_toman = value;
                product_id = product_id;
                quantity = elim product_id [ none ↦ none | some i ↦ quantity ];
                customer_phone = optional_field reader 32 "customer_phone" fields;
                customer_address = optional_field reader 1000 "customer_address" fields;
              }))))

  -- a question that is empty counts for nothing
  abbrev pub read_question : Fields → Option Detected
  read_question fields =
      let question = text_field reader 1000 "clarifying_question" fields in
      if same_text question "" then none else some (unsure question)

  -- what a reply of the classifier says; `raw.strip` of what is no text raises
  unfoldable pub read_reply : List Product → Bool → Json → Result (Option Detected)
  unfolding extract_json read_candidate
  read_reply products consulting (str raw) = elim (extract_json reader raw) [
    | some (obj fields) ↦
        if is_field "unsure" "status" fields
        then ok (read_question fields)
        else if is_field "completed" "status" fields
        then read_candidate products consulting fields
        else ok none
    | _ ↦ ok none
  ]
  read_reply products consulting _ = raised attribute_error

  -- with the tokens used; an error of the service counts for nothing
  abbrev pub read_result :
      List Product → Bool → Result AiCallResult → Result (Option Detected × Option ℤ)
  read_result products consulting (ok r) = do
    found ← read_reply products consulting r.text
    ok (found, r.total_tokens)
  read_result products consulting (raised e) =
      if is_service_error e then ok (none, none) else raised e

  module _ (say : Classifier) (ask : Ask) where
    unfoldable pub detect_order :
        Instant
        → ℕ
        → AiService
        → List (String × String)
        → List Product
        → Bool
        → Circuits
        → Result (Option Detected × Option ℤ) × Instant × Circuits
    unfolding build_classifier_system_prompt read_reply
    detect_order now start service history products consulting circuits =
        let request : Request = record {
          system_prompt = build_classifier_system_prompt say products consulting;
          history = history;
          message = say.user_prompt;
        } in
        let outcome = run (ask request) service start now circuits in
        (read_result products consulting outcome.0, outcome.2, outcome.1)

-- ===== src/Models/Orders.antt =====
-- `Product` and `OrderConsultation` of app/database/models.py, with their enums.
use kasb_o_kar_hoshmand.Base.{ℕ, String, Bool, Option}
use kasb_o_kar_hoshmand.Base.Int.{ℤ}
use kasb_o_kar_hoshmand.Base.Time.{Instant}
use kasb_o_kar_hoshmand.Base.Table.{Keyed}

pub data OrderType : Type 0 where
  order consultation : OrderType

pub data OrderStatus : Type 0 where
  awaiting_customer_confirmation : OrderStatus
  pending confirmed processing shipped completed cancelled rejected expired : OrderStatus

pub record Product : Type 0 where
  pub id : ℕ
  pub shop_bot_id : ℕ
  pub name : String
  pub description : Option String
  pub price_toman : ℕ
  pub photo_file_id : Option String
  pub stock_quantity : Option ℕ
  pub reserved_quantity : ℕ
  pub is_active : Bool

pub record OrderConsultation : Type 0 where
  pub id : ℕ
  pub shop_bot_id : ℕ
  pub customer_id : ℕ
  pub type : OrderType
  pub summary : String
  pub estimated_value_toman : Option ℤ
  pub product_id : Option ℕ
  pub quantity : Option ℕ
  pub customer_phone : Option String
  pub customer_address : Option String
  pub confirmed : Bool
  pub confirmed_at : Option Instant
  pub status : OrderStatus
  pub stock_reserved : Bool
  pub reservation_expires_at : Option Instant
  pub created_at : Instant

instance abbrev pub Product-Keyed : Keyed Product
Product-Keyed = record { key = λ r. r.id }

instance abbrev pub OrderConsultation-Keyed : Keyed OrderConsultation
OrderConsultation-Keyed = record { key = λ r. r.id }

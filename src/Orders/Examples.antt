-- ===== src/Orders/Examples.antt =====
-- Runs of the orders on a small shop.
use kasb_o_kar_hoshmand.Base.{
  ℕ, ◌≡◌, refl, inl, inr, true, false, none, some, [], ◌∷◌, arith, Bool, Bool-cases, ◌==◌,
}
use kasb_o_kar_hoshmand.Base.Int.{pos}
use kasb_o_kar_hoshmand.Base.Time.{days}
use kasb_o_kar_hoshmand.Base.Table.{get_row}
use kasb_o_kar_hoshmand.Models.{
  empty_db, ok, Product-Keyed, OrderConsultation-Keyed, OrderConsultation, OrderStatus, OrderType,
  Product, Db,
}
use kasb_o_kar_hoshmand.Orders.Create.{create_order, stocked_product}
use kasb_o_kar_hoshmand.Orders.Customer.{get_awaiting_confirmation_for_customer}
use kasb_o_kar_hoshmand.Orders.Query.{get_owned_by_id}
use kasb_o_kar_hoshmand.Orders.Owner.{confirm_order, expire_stale_reservations}
use kasb_o_kar_hoshmand.Orders.Reach.{IsSound, OrderStep, OrderReach, OrderReach-IsSound}
use kasb_o_kar_hoshmand.Orders.Lifecycle.{confirm_order_once}

-- ten pieces, of which two are reserved
abbrev shirt : Product
shirt = record {
  id = 7;
  shop_bot_id = 1;
  name = "shirt";
  description = none;
  price_toman = 900;
  photo_file_id = none;
  stock_quantity = some 10;
  reserved_quantity = 2;
  is_active = true;
}

abbrev order_of : ℕ → OrderStatus → Bool → OrderConsultation
order_of id status holds = record {
  id = id;
  shop_bot_id = 1;
  customer_id = 4;
  type = OrderType.order;
  summary = "two shirts";
  estimated_value_toman = some (pos 1800);
  product_id = some 7;
  quantity = some 2;
  customer_phone = none;
  customer_address = none;
  confirmed = false;
  confirmed_at = none;
  status = status;
  stock_reserved = holds;
  reservation_expires_at = some (days 1);
  created_at = 0;
}

abbrev waiting : OrderConsultation
waiting = order_of 1 OrderStatus.pending true

abbrev dropped : OrderConsultation
dropped = order_of 2 OrderStatus.cancelled false

abbrev shop : Db
shop = record empty_db { products = shirt ∷ []; orders = waiting ∷ dropped ∷ [] }

shop-IsSound : IsSound shop
shop-IsSound = record {
  unique = ground arith;
  rule = record {
    reserved = λ i p e s. (elim (Bool-cases (7 == i)) [
      | inl own ↦ ground arith
      | inr other ↦ ground arith
    ]);
    pending = λ i o e s. ground arith;
  };
}

OrderReach-IsSound_example :
    IsSound
      (expire_stale_reservations
        (days 2)
        (create_order 0 1 4 OrderType.order "one more" none (some 7) none shop).1).1
OrderReach-IsSound_example = OrderReach-IsSound shop-IsSound (
    OrderReach.next
      (OrderReach.next OrderReach.here
        (OrderStep.create 0 1 4 OrderType.order "one more" none (some 7) none))
      (OrderStep.lapse (days 2)))

abbrev after_confirm : Db
after_confirm = (confirm_order (days 1) waiting shop).1

abbrev confirmed_row : OrderConsultation
confirmed_row = record waiting {
  confirmed = true;
  confirmed_at = some (days 1);
  status = OrderStatus.confirmed;
  stock_reserved = false;
}

did : confirm_order (days 1) waiting shop ≡ (true, after_confirm)
unfolding confirm_order
did = refl

left_row : get_row 1 after_confirm.orders ≡ some confirmed_row
unfolding confirm_order stocked_product
left_row = refl

confirm_order_once_example :
    confirm_order (days 2) confirmed_row after_confirm ≡ (false, after_confirm)
confirm_order_once_example =
    confirm_order_once (days 1) (days 2) waiting confirmed_row shop refl did left_row

dropped_stocked : stocked_product dropped shop ≡ some (shirt, 10)
unfolding stocked_product
dropped_stocked = refl

abbrev candidate : OrderConsultation
candidate = order_of 9 OrderStatus.awaiting_customer_confirmation false

abbrev asked_db : Db
asked_db = record shop { orders = candidate ∷ [] }

reached : get_awaiting_confirmation_for_customer 9 4 asked_db ≡ ok (some candidate)
unfolding get_awaiting_confirmation_for_customer
reached = refl

shown : get_owned_by_id 1 1 shop ≡ ok (some waiting)
unfolding get_owned_by_id
shown = refl

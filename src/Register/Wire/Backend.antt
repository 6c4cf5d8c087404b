-- ===== src/Register/Wire/Backend.antt =====
-- The server that the register talks to: apps/backend/src/orders/orders.controller.ts and the handlers
-- behind it. The caller, the clock and the ids that are drawn are arguments; the messages of a refusal
-- are left out.
use antd_platform.Prelude.{ℕ, ◌≡◌, Option, none, some, [], ◌∷◌, map, Text, Result, ok, err, Bool}
use antd_platform.Database.{Order, Db, find_order}
use antd_platform.Cart.Delta.{DeltaItem}
use antd_platform.Pricing.Cart.{LineDto, PricingError, item_not_found, option_not_found}
use antd_platform.Pricing.Discounts.{discount_not_found, requires_manager_approval}
use antd_platform.Shop.{
  Shop, OrderError, order_not_found, location_not_found, customer_not_found, pricing, discounting,
}
use antd_platform.Orders.Payment as Pay
use antd_platform.Orders.Payment.{PaymentError, PaymentDto, Receipt}
use antd_platform.Orders.Edit as Edit
use antd_platform.Orders.Fire as Fire
use antd_platform.Orders.Create as Create
use antd_platform.Orders.Create.{PosOrderDto}
use antd_platform.Register.Wire.{
  Request, create_pos_order, append_order_items, fire_course, pay_order, Answer, accepted, rejected,
  Server,
}

-- NotFoundException is 404, ForbiddenException 403, ConflictException 409, BadRequestException 400.
unfoldable pub status_of_pricing : PricingError → ℕ
status_of_pricing item_not_found = 404
status_of_pricing option_not_found = 404
status_of_pricing e = 400

unfoldable pub status_of_order : OrderError → ℕ
unfolding status_of_pricing
status_of_order order_not_found = 404
status_of_order location_not_found = 404
status_of_order customer_not_found = 404
status_of_order (pricing e) = status_of_pricing e
status_of_order (discounting discount_not_found) = 404
status_of_order (discounting requires_manager_approval) = 403
status_of_order e = 400

unfoldable pub status_of_payment : PaymentError → ℕ
status_of_payment Pay.order_not_found = 404
status_of_payment Pay.invalid_pin = 403
status_of_payment Pay.in_flight = 409
status_of_payment e = 400

abbrev pub line_of : DeltaItem → LineDto
line_of i = record {
  menu_item_id = i.menu_item_id;
  quantity = i.quantity;
  option_ids = i.option_ids;
  notes = i.notes;
  course = i.course;
  price_override = i.price_override;
  price_override_reason = i.price_override_reason;
}

abbrev pub ticket_of : Option Order → Option ℕ
ticket_of none = none
ticket_of (some o) = some o.ticket_number

unfoldable pub answer_created : Text → Shop → Result OrderError (Shop × Text) → Shop × Answer
unfolding status_of_order
answer_created org shop (ok (shop', id)) =
    (shop', accepted id (ticket_of (find_order org id shop'.db)))
answer_created org shop (err e) = (shop, rejected (status_of_order e) [])

unfoldable pub answer_appended : Text → Shop → Result OrderError (Shop × Bool) → Shop × Answer
unfolding status_of_order
answer_appended id shop (ok (shop', replayed)) = (shop', accepted id none)
answer_appended id shop (err e) = (shop, rejected (status_of_order e) [])

unfoldable pub answer_fired : Text → Shop → Result OrderError (Db × Bool) → Shop × Answer
unfolding status_of_order
answer_fired id shop (ok (db, printed)) = (record shop { db = db }, accepted id none)
answer_fired id shop (err e) = (shop, rejected (status_of_order e) [])

unfoldable pub answer_paid : Text → Shop → Result PaymentError (Db × Receipt) → Shop × Answer
unfolding status_of_payment
answer_paid id shop (ok (db, receipt)) = (record shop { db = db }, accepted id none)
answer_paid id shop (err e) = (shop, rejected (status_of_payment e) [])

-- A create draws the order's id and that of a new customer from the state.
module _ (fresh new_customer : Shop → Text) (org role user : Text) where
  unfoldable pub handle : ℕ → Request → Shop → Shop × Answer
  unfolding answer_created answer_appended answer_fired answer_paid
  handle now (create_pos_order dto) shop =
      answer_created org shop
        (Create.create_pos_order now (fresh shop) (new_customer shop) org role dto shop)
  handle now (append_order_items id m items) shop =
      answer_appended id shop
        (Edit.append_order_items org role id (some m) (map line_of items) shop)
  handle now (fire_course id course m) shop =
      answer_fired id shop (Fire.fire_course now org id course (some m) shop.db)
  handle now (pay_order id method tip) shop =
      answer_paid id shop (Pay.pay_order now org user id method tip shop.db)

  -- The backend at one moment of its clock.
  abbrev pub backend : ℕ → Server Shop
  backend now = record { handle = handle now }

-- A request that carries a key: the order's id for a create, the mutation's for an append and a fire.
abbrev pub IsKeyed : Request → Type 0
IsKeyed (create_pos_order dto) = (c : ℕ) × (cs : Text) × (dto.client_order_id ≡ some (c ∷ cs))
IsKeyed (append_order_items id m items) = (c : ℕ) × (cs : Text) × (m ≡ c ∷ cs)
IsKeyed (fire_course id course m) = (c : ℕ) × (cs : Text) × (m ≡ c ∷ cs)
IsKeyed (pay_order id method tip) = ⊥

-- ===== src/Orders/Channels/Tickets.antt =====
-- Ticket numbers and the creation of orders, by whichever way they come.
use antd_platform.Prelude.{ℕ, ◌≡◌, none, Text, ok}
use antd_platform.Shop.{Shop}
use antd_platform.Orders.StatusWrites.{find_by_id}
use antd_platform.Orders.Create.{PosOrderDto, create_pos_order}
use antd_platform.Orders.Channels.{
  SpokenOrder, create_order_for_org, MarketplaceOrder, create_marketplace_order,
}

-- An order that is accepted from the register, by telephone or from a marketplace.
pub data Creation (org : Text) (shop shop' : Shop) : Type 0 where
  rings_up :
      (now : ℕ) (id new_customer role answered : Text) (dto : PosOrderDto)
      → find_by_id id shop.db ≡ none
      → create_pos_order now id new_customer org role dto shop ≡ ok (shop', answered)
      → Creation org shop shop'
  takes_call :
      (id answered : Text) (dto : SpokenOrder)
      → find_by_id id shop.db ≡ none
      → create_order_for_org id org dto shop ≡ ok (shop', answered)
      → Creation org shop shop'
  is_delivered :
      (id new_customer answered : Text) (dto : MarketplaceOrder)
      → create_marketplace_order id new_customer org dto shop ≡ ok (shop', answered)
      → Creation org shop shop'

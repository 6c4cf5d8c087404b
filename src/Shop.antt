-- ===== src/Shop.antt =====
-- The tables behind the order handlers of orders.service.ts, and the errors that they throw.
use antd_platform.Prelude.{ℕ, List, Text, Option}
use antd_platform.Database.{Db}
use antd_platform.Pricing.Cart.{Menu, PricingError}
use antd_platform.Pricing.Discounts.{DiscountRow, DiscountError}
use antd_platform.Pricing.Locations.{Location}

pub record Customer : Type 0 where
  pub id : Text
  pub organization_id : Text
  pub name : Text
  pub phone : Option Text
  pub loyalty_points : ℕ

pub record Shop : Type 0 where
  pub db : Db
  pub menu : Menu
  pub discounts : List DiscountRow
  pub locations : List Location
  pub customers : List Customer

pub data OrderError : Type 0 where
  no_items order_not_found already_paid not_editable has_payments : OrderError
  location_not_found customer_not_found customer_required not_enough_points : OrderError
  pricing : PricingError → OrderError
  discounting : DiscountError → OrderError

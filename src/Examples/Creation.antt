-- ===== src/Examples/Creation.antt =====
-- An order rung up at the register, paid in cash at once.
use antd_platform.Strings.{
  upper_unit, trimmed, trim_start, trim, to_upper_case, to_lower_case, lower_unit, is_white,
}
use antd_platform.Pricing.Stock.{take_stock, decrement_stock}
use antd_platform.Pricing.Locations.{next_ticket_number, max_ticket}
use antd_platform.Money.{scale, raw_discount, rate_of, discount_amount_for}
use antd_platform.Pricing.Discounts.{find_discount, check_discount, resolve_discount}
use antd_platform.Pricing.Cart.{
  unit_price, taxable_subtotal, selection_count, price_lines, option_of, is_attached, check_group,
  attached_to, check_groups, select_options, menu_item_of, resolve_line, price_cart_items,
}
use antd_platform.Orders.Edit.{name_or_walk_in, require_customer}
use antd_platform.Prelude.{text_eq, ◌≡◌, refl, true, false, none, some, ok, [], ◌∷◌, codes, sum_of}
use antd_platform.Prelude.Int.{round_div, neg, pos}
use antd_platform.Status.{confirmed}
use antd_platform.Database.{Order}
use antd_platform.Shop.{Shop}
use antd_platform.Cart.{CartLine, line_cost}
use antd_platform.Cart.Totals.{cart_totals}
use antd_platform.Orders.StatusWrites.{find_by_id}
use antd_platform.Orders.Create.{
  write_pos_order, tax_on, settle_points, round_ratio, resolve_customer_id_by_phone, real_name,
  pos_order, points_earned, name_customer, has_phone, first_course, customer_for, points_of,
  check_redemption, location_of, create_new, find_by_client_order_id, replay_of, PosOrderDto,
  create_pos_order, pos_tender,
}
use antd_platform.Orders.Create.Tender.{pos_tender-cart_totals}
use antd_platform.Orders.Create.Requests.{Answered, create_pos_order-Answered}
use antd_platform.Examples.Fixtures.{
  acme, main_street, shop, open_order, one_burger, burger, menu, ten_percent, ten_percent_tax,
}

abbrev request : PosOrderDto
request = record {
  location_id = main_street;
  customer_id = none;
  customer_name = none;
  customer_phone = none;
  table_id = none;
  order_type = none;
  special_instructions = none;
  payment_method = some (codes "cash");
  tip_amount = some (pos 100);
  apply_service_charge = false;
  redeem_points = none;
  discount_id = some (codes "d1");
  promo_code = none;
  client_order_id = some (codes "c9");
  by_course = true;
  items = one_burger ∷ [];
}

abbrev new_order : Order
new_order = record {
  id = codes "o2";
  organization_id = acme;
  location_id = some main_street;
  status = confirmed;
  customer_id = none;
  customer_name = codes "Walk-in";
  customer_phone = [];
  table_id = none;
  order_type = codes "dine_in";
  special_instructions = none;
  ticket_number = 8;
  client_order_id = some (codes "c9");
  by_course = true;
  items =
      record {
        menu_item_id = codes "burger";
        quantity = 1;
        price = 1200;
        modifiers = [];
        notes = none;
        course = some 1;
        fired_at = some 9;
      }
      ∷ [];
  subtotal = 1200;
  discount_amount = 120;
  discount_id = some (codes "d1");
  service_charge_amount = 0;
  tax_amount = 108;
  tip_amount = 100;
  loyalty_points_earned = 12;
  loyalty_points_redeemed = 0;
  total_amount = 1288;
  payment_method = some (codes "cash");
  paid_at = some 9;
  deleted_at = none;
}

abbrev larger_shop : Shop
larger_shop = record shop {
  db = record { orders = open_order ∷ new_order ∷ []; payments = []; claims = [] };
  menu = record menu { items = record burger { stock_quantity = some 4 } ∷ [] };
}

fresh : find_by_id (codes "o2") shop.db ≡ none
unfolding find_by_id text_eq
fresh = refl

created :
    create_pos_order 9 (codes "o2") (codes "p1") acme (codes "user") request shop
    ≡ ok (larger_shop, codes "o2")
unfolding create_pos_order replay_of find_by_client_order_id text_eq create_new location_of
    require_customer check_redemption points_of price_cart_items resolve_line menu_item_of
    select_options check_groups attached_to resolve_discount check_discount discount_amount_for
    rate_of raw_discount scale customer_for first_course has_phone name_customer points_earned
    pos_order pos_tender real_name resolve_customer_id_by_phone round_ratio settle_points tax_on
    write_pos_order name_or_walk_in neg round_div check_group is_attached option_of price_lines
    selection_count taxable_subtotal unit_price find_discount max_ticket next_ticket_number
    decrement_stock take_stock is_white lower_unit to_lower_case to_upper_case trim trim_start
    trimmed upper_unit
created = refl

create_pos_order-Answered_example :
    Answered 9 (codes "o2") acme (codes "user") request shop larger_shop (codes "o2")
create_pos_order-Answered_example =
    create_pos_order-Answered 9 (codes "o2") (codes "p1") acme (codes "user") request shop
      larger_shop (codes "o2") fresh created

abbrev soup : CartLine
soup = record {
  id = codes "l1";
  product = record { id = codes "soup"; name = codes "Soup"; price = 1235; tax_exempt = false };
  quantity = 1;
  notes = none;
  course = none;
  selected_modifiers = [];
  price_override = none;
  price_override_reason = none;
}

pos_tender-cart_totals_example :
    let subtotal = sum_of line_cost (soup ∷ []) in
    let server = pos_tender subtotal subtotal (some ten_percent) ten_percent_tax true 0 0 in
    let register = cart_totals (soup ∷ []) (some ten_percent) 1000 0 true in
    (server.discount_amount ≡ register.discount_amount)
    × (server.service_charge_amount ≡ register.service_charge_amount)
    × (server.tax_amount ≡ register.tax_amount)
    × (server.total_amount ≡ register.total_amount)
pos_tender-cart_totals_example =
    pos_tender-cart_totals (soup ∷ []) (some ten_percent) ten_percent_tax true

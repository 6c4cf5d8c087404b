-- ===== src/Examples/Orders.antt =====
-- Edits, course fires and status changes of one order.
use antd_platform.Strings.{upper_unit, trimmed, trim_start, trim, to_upper_case, is_white}
use antd_platform.Pricing.Stock.{take_stock, decrement_stock}
use antd_platform.Pricing.Locations.{get_tax_rate}
use antd_platform.Prelude.Int.{◌+ℤ◌, round_div, neg}
use antd_platform.Money.{scale, raw_discount, rate_of, discount_amount_for}
use antd_platform.Pricing.Discounts.{given, find_discount, check_discount, resolve_discount}
use antd_platform.Pricing.Cart.{
  unit_price, selection_count, price_lines, option_of, is_attached, check_group, attached_to,
  check_groups, select_options, menu_item_of, resolve_line, price_cart_items,
}
use antd_platform.Orders.Payment.{paid_sum_for}
use antd_platform.Status.External.{map_external_status}
use antd_platform.Prelude.{
  text_eq, ◌+◌, ◌≤◌, ◌≡◌, ◌≢◌, ◌⊎◌, refl, true, false, none, some, ok, [], ◌∷◌, codes, Text, arith,
}
use antd_platform.Database.{items_subtotal, payments_of, Order, Db, find_order, update_order}
use antd_platform.Status.{
  can_transition_order_status, order_status_transitions, includes, name, OrderStatus, confirmed,
  refunded,
}
use antd_platform.Orders.Edit.{
  prepare_update, name_or_walk_in, replace_items, require_customer, retotal, grow, check_editable,
  append_items, is_claimed, add_claim, live_order, already_done, append_order_items,
}
use antd_platform.Orders.Edit.Laws.{Appended, append_order_items-Appended}
use antd_platform.Shop.{Shop}
use antd_platform.Orders.Edit.{OrderPatch, update_order_items}
use antd_platform.Orders.Edit.Replace.{Replaced, KeepsRest, update_order_items-Replaced}
use antd_platform.Orders.Fire.{stamp_order, is_due, fire_items, fire_course}
use antd_platform.Orders.Fire.Laws.{fire_course_twice}
use antd_platform.Orders.StatusWrites.{
  move_to, wanted, find_by_id, update_order_status, handle_status_change, find_by_id, StatusEvent,
  manual_status, set_status,
}
use antd_platform.Orders.StatusWrites.Laws.{
  Written, HasUniqueIds, update_order_status-Written, handle_status_change-Written,
}
use antd_platform.Orders.StatusWrites.Runs.{requests, effort, requests_bounded}
use antd_platform.Examples.Fixtures.{
  acme, tab, open_db, open_order, shop, grown_shop, mutation, one_burger, fired_db, burger_item,
}

grown :
    append_order_items acme (codes "user") tab (some mutation) (one_burger ∷ []) shop
    ≡ ok (grown_shop, false)
unfolding append_order_items already_done is_claimed append_items live_order find_order text_eq
    check_editable paid_sum_for payments_of price_cart_items resolve_line menu_item_of
    select_options check_groups attached_to resolve_discount items_subtotal update_order
    discount_amount_for rate_of raw_discount scale add_claim grow retotal neg round_div ◌+ℤ◌
    check_group is_attached option_of price_lines selection_count unit_price check_discount
    find_discount get_tax_rate decrement_stock take_stock is_white to_upper_case trim trim_start
    trimmed upper_unit
grown = refl

append_order_items-Appended_example :
    Appended acme tab (some mutation) (one_burger ∷ []) shop grown_shop
append_order_items-Appended_example =
    append_order_items-Appended acme (codes "user") tab (some mutation) (one_burger ∷ []) shop
      grown_shop grown

abbrev keyed_db : Db
keyed_db = record fired_db {
  claims = record { organization_id = acme; client_mutation_id = mutation } ∷ [];
}

keyed_fire : fire_course 9 acme tab 1 (some mutation) open_db ≡ ok (keyed_db, true)
unfolding fire_course already_done is_claimed fire_items live_order find_order text_eq update_order
    is_due add_claim stamp_order
keyed_fire = refl

replayed_fire : fire_course 12 acme tab 1 (some mutation) keyed_db ≡ ok (keyed_db, false)
unfolding fire_course already_done is_claimed find_order text_eq
replayed_fire = refl

not_yet : already_done acme (given (some mutation)) open_db ≡ false
unfolding already_done is_claimed
not_yet = refl

abbrev fired_order : Order
fired_order = record open_order { items = record burger_item { fired_at = some 9 } ∷ [] }

keyed_is : find_order acme tab keyed_db ≡ some fired_order
unfolding find_order text_eq
keyed_is = refl

fire_course_twice_example : (false ≡ false) × (fired_order.items ≡ fired_order.items)
fire_course_twice_example =
    fire_course_twice 9 12 acme tab 1 (some mutation) (some mutation) open_db keyed_db keyed_db true
      false fired_order fired_order not_yet keyed_fire replayed_fire keyed_is keyed_is

abbrev confirmed_db : Db
confirmed_db = record open_db { orders = set_status confirmed open_order ∷ [] }

accepted : update_order_status acme tab (codes "confirmed") open_db ≡ ok confirmed_db
unfolding update_order_status manual_status text_eq name find_order includes
    order_status_transitions update_order
accepted = refl

update_order_status-Written_example :
    Written acme tab open_db confirmed_db
    × ((t : OrderStatus) × (manual_status (codes "confirmed") ≡ some t)
        × (t ≢ refunded)
        × (confirmed_db ≡ update_order tab (set_status t) open_db))
update_order_status-Written_example =
    update_order_status-Written acme tab (codes "confirmed") open_db confirmed_db accepted

abbrev accepted_event : StatusEvent
accepted_event = record {
  internal_order = some tab;
  is_cancel = false;
  embedded = some (codes "Accepted");
  has_order_ref = false;
  fetched = none;
}

handled : handle_status_change acme accepted_event open_db ≡ ok confirmed_db
unfolding handle_status_change find_by_id text_eq wanted move_to map_external_status
    can_transition_order_status find_order update_order
handled = refl

keyed : HasUniqueIds open_db
unfolding find_by_id find_order
keyed = record { one_row = λ org id o o' f g. ground arith }

handle_status_change-Written_example :
    (confirmed_db ≡ open_db)
    ⊎ ((id : Text) × (accepted_event.internal_order ≡ some id)
        × Written acme id open_db confirmed_db)
handle_status_change-Written_example =
    handle_status_change-Written acme accepted_event open_db confirmed_db keyed handled

open_found : find_order acme tab open_db ≡ some open_order
unfolding find_order text_eq
open_found = refl

requests_bounded_example :
    (o' : Order) × (find_order acme tab
        (requests acme tab (codes "confirmed" ∷ codes "refunded" ∷ []) open_db).0
      ≡ some o')
    × ((requests acme tab (codes "confirmed" ∷ codes "refunded" ∷ []) open_db).1
          + effort open_order.status
        ≤ 4)
    × ((o'.status ≡ open_order.status) ⊎ (o'.status ≢ refunded))
requests_bounded_example =
    requests_bounded acme tab (codes "confirmed" ∷ codes "refunded" ∷ []) open_db open_order
      open_found

abbrev no_patch : OrderPatch
no_patch = record {
  customer_id = none;
  customer_name = none;
  customer_phone = none;
  table_id = none;
  order_type = none;
  special_instructions = none;
  discount_id = none;
  promo_code = none;
}

abbrev single_order : Order
single_order = record open_order {
  items =
      record {
        menu_item_id = codes "burger";
        quantity = 1;
        price = 1200;
        modifiers = [];
        notes = none;
        course = some 1;
        fired_at = none;
      }
      ∷ [];
  subtotal = 1200;
  tax_amount = 120;
  total_amount = 1320;
}

abbrev single_shop : Shop
single_shop = record shop { db = record open_db { orders = single_order ∷ [] } }

replaced :
    update_order_items acme (codes "user") tab no_patch (one_burger ∷ []) shop shop ≡ ok single_shop
unfolding update_order_items find_order text_eq check_editable paid_sum_for payments_of
    require_customer price_cart_items resolve_line menu_item_of select_options check_groups
    attached_to resolve_discount trimmed update_order replace_items discount_amount_for rate_of
    raw_discount scale name_or_walk_in retotal neg round_div ◌+ℤ◌ check_group is_attached option_of
    price_lines selection_count unit_price check_discount find_discount get_tax_rate is_white
    to_upper_case trim trim_start upper_unit prepare_update
replaced = refl

open_is : find_order acme tab open_db ≡ some open_order
unfolding find_order text_eq
open_is = refl

update_order_items-Replaced_example :
    Replaced acme (codes "user") tab no_patch (one_burger ∷ []) shop shop single_shop open_order
    × KeepsRest acme tab shop single_shop
update_order_items-Replaced_example =
    update_order_items-Replaced acme (codes "user") tab no_patch (one_burger ∷ []) shop shop
      single_shop open_order open_is replaced

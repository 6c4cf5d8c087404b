-- ===== src/Examples/Registers.antt =====
-- A register that was offline, and the server that it meets again.
use antd_platform.Orders.Create.{
  replay_of, find_by_client_order_id, create_new, location_of, check_redemption, points_of,
  customer_for, first_course, has_phone, name_customer, points_earned, pos_order, pos_tender,
  real_name, resolve_customer_id_by_phone, round_ratio, settle_points, tax_on, write_pos_order,
}
use antd_platform.Orders.Edit.{
  require_customer, name_or_walk_in, append_items, check_editable, add_claim, grow, retotal,
}
use antd_platform.Pricing.Cart.{
  price_cart_items, resolve_line, menu_item_of, select_options, check_groups, attached_to,
  check_group, is_attached, option_of, price_lines, selection_count, taxable_subtotal, unit_price,
}
use antd_platform.Pricing.Discounts.{resolve_discount, check_discount, find_discount}
use antd_platform.Money.{discount_amount_for, rate_of, raw_discount, scale}
use antd_platform.Prelude.Int.{neg, round_div, ◌+ℤ◌}
use antd_platform.Pricing.Locations.{max_ticket, next_ticket_number, get_tax_rate}
use antd_platform.Pricing.Stock.{decrement_stock, take_stock}
use antd_platform.Strings.{
  is_white, lower_unit, to_lower_case, to_upper_case, trim, trim_start, trimmed, upper_unit,
}
use antd_platform.Database.{items_subtotal, update_order}
use antd_platform.Register.Sync.{
  turn, attempt, end_turn, dispatch, dispatch_work, landed, record_create,
}
use antd_platform.Register.Orders.{attach_server_id, attach, same_local_status}
use antd_platform.Register.Wire.{call, call_on, send, heard}
use antd_platform.Register.Wire.Backend.{answer_created, answer_appended}
use antd_platform.Register.Outbox.{remove}
use antd_platform.Orders.Create as Create
use antd_platform.Orders.Edit as Edit
use antd_platform.Orders.Payment.{paid_sum_for}
use antd_platform.Orders.Payment as Pay
use antd_platform.Orders.Edit.{live_order, is_claimed, already_done}
use antd_platform.Orders.Fire as Fire
use antd_platform.Orders.Fire.{fire_items}
use antd_platform.Prelude.{
  ◌*◌, sum_of, ℕ, ◌+◌, ◌≡◌, refl, arith, false, none, some, [], ◌∷◌, Text, codes, text_eq,
}
use antd_platform.Database.{payments_of, find_order}
use antd_platform.Shop.{Shop}
use antd_platform.Orders.StatusWrites.{find_by_id}
use antd_platform.Cart.Delta.{DeltaItem}
use antd_platform.Register.{
  LocalOrderItem, LocalOrder, OrderMutation, Register, open_tab, create, append, settle,
}
use antd_platform.Register.Orders.{get_order_by_id}
use antd_platform.Register.Outbox.{list_pending, insert_row}
use antd_platform.Register.Wire.{Request, fire_course, pay_order, accepted, Server}
use antd_platform.Register.Wire.Backend.{handle, backend}
use antd_platform.Register.Wire.Retries.{handle-repeated}
use antd_platform.Register.Sync.{Device, push_mutations, create_request, item_line}
use antd_platform.Register.Sync.History.{history}
use antd_platform.Register.Sync.Fifo.{push_mutations-history}
use antd_platform.Register.Sync.Drain.{TakesTurn-known, request_for}
use antd_platform.Register.Sync.Drained.{Drained, TakesRun, device_after, push_mutations-Drained}
use antd_platform.Register.Sync.Tab.{
  tab_register, online_device, request_units, local_units, delta_units, offline_tab-sent_twice,
}
use antd_platform.Examples.Fixtures.{acme, tab, ann, shop, main_street}

abbrev pub local_tab : LocalOrder
local_tab = record {
  id = codes "c1";
  server_id = none;
  ticket_number = none;
  status = open_tab;
  items = [];
  customer_id = none;
  customer_name = [];
  customer_phone = [];
  table_id = some (codes "t4");
  table_name = none;
  guests = some 2;
  order_type = codes "dine_in";
  subtotal = 0;
  discount_id = none;
  discount_name = none;
  discount_amount = 0;
  tax_amount = 0;
  total_amount = 0;
  payment_method = none;
  tendered_amount = none;
  change_amount = none;
  tip_amount = 0;
  service_charge_amount = 0;
  loyalty_points_redeemed = 0;
  special_instructions = none;
  error_message = none;
  created_at = 1;
  synced_at = none;
  tab_opened_at = some 1;
  by_course = false;
  business_day_id = none;
}

abbrev one_tea : DeltaItem
one_tea = record {
  menu_item_id = codes "tea";
  quantity = 1;
  notes = none;
  course = none;
  option_ids = [];
  price_override = none;
  price_override_reason = none;
}

abbrev queued : Register
queued = record {
  orders = local_tab ∷ [];
  outbox =
      record {
        id = codes "m1";
        order_id = codes "c1";
        work = create;
        created_at = 1;
        attempts = 0;
        last_error = none;
      }
      ∷ record {
        id = codes "m2";
        order_id = codes "c1";
        work = append (one_tea ∷ []);
        created_at = 2;
        attempts = 0;
        last_error = none;
      }
      ∷ [];
}

-- A server that counts its requests and takes all of them.
abbrev counting : Server ℕ
counting = record { handle = λ r n. (n + 1, accepted (codes "s1") (some n)) }

abbrev offline : Device ℕ
offline = online_device queued 0

pending_is : list_pending queued.outbox ≡ queued.outbox
unfolding list_pending insert_row
pending_is = refl

push_mutations-history_example :
    history (codes "c1") (push_mutations counting 9 main_street offline).0
    ≡ history (codes "c1") offline
unfolding list_pending insert_row text_eq get_order_by_id
push_mutations-history_example =
    push_mutations-history counting 9 main_street (codes "c1") offline ((refl, tt), (tt, tt)) refl

-- A tab with a tea, and a tea that was added.
abbrev a_tea : LocalOrderItem
a_tea = record {
  line_id = none;
  menu_item_id = codes "tea";
  name = codes "Tea";
  unit_price = 300;
  quantity = 1;
  notes = none;
  course = none;
  fired_at = none;
  price_override = none;
  price_override_reason = none;
  modifiers = [];
}

abbrev tea_tab : LocalOrder
tea_tab = record local_tab { items = a_tea ∷ [] }

abbrev merged_tab : LocalOrder
merged_tab = record local_tab { items = a_tea ∷ a_tea ∷ [] }

offline_tab-sent_twice_example :
    let register = tab_register 1 2 (codes "m1") (codes "m2") tea_tab merged_tab one_tea [] in
    sum_of
      (request_units (codes "tea"))
      (push_mutations counting 9 main_street (online_device register 0)).0.wire.handled
    ≡ local_units (codes "tea") tea_tab.items + 2 * delta_units (codes "tea") (one_tea ∷ [])
unfolding text_eq
offline_tab-sent_twice_example =
    offline_tab-sent_twice counting 9 1 2 main_street (codes "m1") (codes "m2") tea_tab merged_tab
      one_tea [] 0 115 (codes "1") (codes "s1") (some 0) (some 1) (omega arith) refl
      (λ p. omega arith) refl refl (codes "tea")

abbrev fresh : Shop → Text
fresh s = codes "o2"

abbrev profile : Shop → Text
profile s = codes "p1"

abbrev fire_mains : Request
fire_mains = fire_course tab 1 (codes "m1")

-- A tab with a burger, and a burger that was added: the backend takes both requests.
abbrev burger_tab : LocalOrder
burger_tab = record local_tab {
  items = record a_tea { menu_item_id = codes "burger"; unit_price = 1200 } ∷ [];
  customer_name = codes "Ann";
}

abbrev one_burger_more : DeltaItem
one_burger_more = record one_tea { menu_item_id = codes "burger" }

abbrev create_row : OrderMutation
create_row = record {
  id = codes "m1";
  order_id = codes "c1";
  work = create;
  created_at = 1;
  attempts = 0;
  last_error = none;
}

abbrev append_row : OrderMutation
append_row = record create_row {
  id = codes "m2";
  work = append (one_burger_more ∷ []);
  created_at = 2;
}

abbrev burger_queue : Register
burger_queue = record { orders = burger_tab ∷ []; outbox = create_row ∷ append_row ∷ [] }

abbrev at_backend : Device Shop
at_backend = online_device burger_queue shop

abbrev the_backend : Server Shop
the_backend = backend fresh profile acme (codes "user") ann 9

taken : TakesRun the_backend 9 main_street burger_queue.outbox at_backend
unfolding TakesRun replay_of find_by_client_order_id text_eq create_new location_of require_customer
    check_redemption points_of price_cart_items resolve_line menu_item_of select_options
    check_groups attached_to resolve_discount check_discount discount_amount_for rate_of
    raw_discount scale customer_for first_course has_phone name_customer points_earned pos_order
    pos_tender real_name resolve_customer_id_by_phone round_ratio settle_points tax_on
    write_pos_order name_or_walk_in neg round_div check_group is_attached option_of price_lines
    selection_count taxable_subtotal unit_price find_discount max_ticket next_ticket_number
    decrement_stock take_stock is_white lower_unit to_lower_case to_upper_case trim trim_start
    trimmed upper_unit already_done is_claimed append_items live_order find_order check_editable
    paid_sum_for payments_of items_subtotal update_order add_claim grow retotal ◌+ℤ◌ get_tax_rate
    turn attempt end_turn dispatch dispatch_work landed record_create attach_server_id attach
    get_order_by_id call call_on send heard create_request item_line request_for handle
    answer_created answer_appended remove same_local_status Edit.append_order_items
    Create.create_pos_order
taken = (
  TakesTurn-known the_backend main_street create_row at_backend burger_tab refl
      (111, codes "2", some 8, refl),
  (
    TakesTurn-known the_backend main_street append_row
        (device_after (turn the_backend 9 main_street [] create_row at_backend))
        (attach 9 (codes "o2") (some 8) burger_tab) refl (111, codes "2", none, refl),
    tt,
  ),
)

push_mutations-Drained_example :
    Drained Shop at_backend burger_queue.outbox
      (push_mutations the_backend 9 main_street at_backend)
unfolding list_pending insert_row text_eq get_order_by_id
push_mutations-Drained_example =
    push_mutations-Drained the_backend 9 main_street [] at_backend refl ((refl, tt), (tt, tt))
      (refl, (refl, tt)) (refl, (refl, tt)) (refl, (refl, tt)) taken

-- The tables after a request to the backend.
abbrev after : ℕ → Request → Shop
after now r = (handle fresh profile acme (codes "user") ann now r shop).0

fired :
    handle fresh profile acme (codes "user") ann 9 fire_mains shop
    ≡ (after 9 fire_mains, accepted tab none)
unfolding handle Fire.fire_course already_done is_claimed fire_items live_order find_order text_eq
fired = refl

unused : find_by_id (fresh shop) shop.db ≡ none
unfolding find_by_id text_eq
unused = refl

handle-repeated_example :
    handle fresh profile acme (codes "user") ann 15 fire_mains (after 9 fire_mains)
    ≡ (after 9 fire_mains, accepted tab none)
handle-repeated_example =
    handle-repeated fresh profile acme (codes "user") ann 9 15 fire_mains tab none shop
      (after 9 fire_mains) (109, codes "1", refl) unused fired

abbrev pay_tab : Request
pay_tab = pay_order tab (codes "cash") none

abbrev synced_tab : LocalOrder
synced_tab = record local_tab { server_id = some tab }

abbrev settle_row : OrderMutation
settle_row = record {
  id = codes "m3";
  order_id = codes "c1";
  work = settle (codes "cash") none;
  created_at = 3;
  attempts = 0;
  last_error = none;
}

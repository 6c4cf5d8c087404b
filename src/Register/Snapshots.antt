-- ===== src/Register/Snapshots.antt =====
-- cartOps.ts, the mapping between the cart and a local order, with loadOrder, loadTab, tabDelta and
-- buildOrder of apps/pos/src/state/CartContext.tsx. The clock, a new order id, the tax rate and the
-- cached discounts are arguments; the overrides of a caller are updates of the order that is built.
pub mod Laws
pub mod Rebuilt
use antd_platform.Prelude.{
  ℕ, Bool, false, ◌&&◌, not, Option, none, some, List, [], ◌∷◌, ◌++◌, map, Text, text_eq, codes,
  is_some, get_or, find, if◌then◌else◌,
}
use antd_platform.Prelude.Int.{pos}
use antd_platform.Money.{Discount, fixed}
use antd_platform.Pricing.Discounts.{given}
use antd_platform.Cart.{CartLine}
use antd_platform.Cart.Signature.{number_text}
use antd_platform.Cart.Totals.{cart_totals}
use antd_platform.Cart.Delta.{DeltaItem, lines_delta}
use antd_platform.Register.{LocalOrderItem, LocalOrder, held}

pub record CartCustomer : Type 0 where
  pub id : Text
  pub name : Text
  pub phone : Option Text

pub record DiningTable : Type 0 where
  pub id : Text
  pub name : Text
  pub capacity : ℕ

-- A discount of the register's cache, with its name.
pub record CachedDiscount : Type 0 where
  pub name : Text
  pub discount : Discount

-- The cart as the register keeps it. Fire times go by line id; a later entry overwrites an earlier one.
pub record CartState : Type 0 where
  pub lines : List CartLine
  pub customer : Option CartCustomer
  pub table : Option DiningTable
  pub guests : Option ℕ
  pub order_type : Text
  pub discount : Option CachedDiscount
  pub resumed_order_id : Option Text
  pub tab_order_id : Option Text
  pub tab_opened_at : Option ℕ
  pub tab_baseline : List CartLine
  pub by_course : Bool
  pub fired_at_by_line : List (Text × Option ℕ)

-- `??`.
abbrev pub or_else : Option Text → Option Text → Option Text
or_else none b = b
or_else (some a) b = some a

unfoldable pub line_id_for_item : LocalOrderItem → Text
line_id_for_item i =
    get_or i.line_id (i.menu_item_id ++ (codes ":" ++ number_text (get_or i.course 0)))

unfoldable pub line_from_item : LocalOrderItem → CartLine
unfolding line_id_for_item
line_from_item i = record {
  id = line_id_for_item i;
  product = record { id = i.menu_item_id; name = i.name; price = i.unit_price; tax_exempt = false };
  quantity = i.quantity;
  notes = i.notes;
  course = i.course;
  selected_modifiers = i.modifiers;
  price_override = i.price_override;
  price_override_reason = i.price_override_reason;
}

unfoldable pub lines_from_order : LocalOrder → List CartLine
unfolding line_from_item
lines_from_order o = map line_from_item o.items

unfoldable pub customer_from_order : LocalOrder → Option CartCustomer
customer_from_order o =
    if not (is_some (given o.customer_id)) && text_eq o.customer_name (codes "Walk-in")
    then none
    else some (record {
      id = get_or o.customer_id [];
      name = o.customer_name;
      phone = given (some o.customer_phone);
    })

unfoldable pub table_from : Option Text → Option Text → Option ℕ → Option DiningTable
table_from none name guests = none
table_from (some id) none guests = none
table_from (some id) (some name) guests =
    some (record { id = id; name = name; capacity = get_or guests 4 })

unfoldable pub table_from_order : LocalOrder → Option DiningTable
unfolding table_from
table_from_order o = table_from (given o.table_id) (given o.table_name) o.guests

-- The cached discount, or else the amount that was taken, as a fixed one.
unfoldable pub discount_by_id :
    List CachedDiscount → Option Text → LocalOrder → Option CachedDiscount
discount_by_id cached none o = none
discount_by_id cached (some id) o =
    elim (find (λ (d : CachedDiscount). text_eq d.discount.id id) cached) [
      | some d ↦ some d
      | none ↦ some (record {
        name = get_or o.discount_name (codes "Discount");
        discount = record {
          id = id;
          type = fixed;
          value = pos o.discount_amount;
          requires_manager = false;
        };
      })
    ]

unfoldable pub discount_from_order : List CachedDiscount → LocalOrder → Option CachedDiscount
unfolding discount_by_id
discount_from_order cached o = discount_by_id cached (given o.discount_id) o

unfoldable pub load_order : List CachedDiscount → LocalOrder → CartState
unfolding lines_from_order customer_from_order table_from_order discount_from_order
load_order cached o = record {
  lines = lines_from_order o;
  customer = customer_from_order o;
  table = table_from_order o;
  guests = o.guests;
  order_type = o.order_type;
  discount = discount_from_order cached o;
  resumed_order_id = some o.id;
  tab_order_id = none;
  tab_opened_at = none;
  tab_baseline = [];
  by_course = o.by_course;
  fired_at_by_line = [];
}

unfoldable pub load_tab : List CachedDiscount → LocalOrder → CartState
unfolding lines_from_order customer_from_order table_from_order discount_from_order line_id_for_item
load_tab cached o = record {
  lines = lines_from_order o;
  customer = customer_from_order o;
  table = table_from_order o;
  guests = o.guests;
  order_type = o.order_type;
  discount = discount_from_order cached o;
  resumed_order_id = none;
  tab_order_id = some o.id;
  tab_opened_at = some (get_or o.tab_opened_at o.created_at);
  tab_baseline = lines_from_order o;
  by_course = o.by_course;
  fired_at_by_line = map (λ i. (line_id_for_item i, i.fired_at)) o.items;
}

unfoldable pub tab_delta : CartState → List DeltaItem
tab_delta cart = lines_delta cart.tab_baseline cart.lines

unfoldable pub last_entry : List (Text × Option ℕ) → Text → Option (Option ℕ)
last_entry [] id = none
last_entry ((j, t) ∷ entries) id = elim (last_entry entries id) [
  | some u ↦ some u
  | none ↦ if text_eq j id then some t else none
]

-- `firedAtByLine?.[id] ?? null`.
unfoldable pub fired_at : List (Text × Option ℕ) → Text → Option ℕ
unfolding last_entry
fired_at entries id = get_or (last_entry entries id) none

unfoldable pub order_item_of : List (Text × Option ℕ) → CartLine → LocalOrderItem
unfolding fired_at
order_item_of entries l = record {
  line_id = some l.id;
  menu_item_id = l.product.id;
  name = l.product.name;
  unit_price = l.product.price;
  quantity = l.quantity;
  notes = l.notes;
  course = l.course;
  fired_at = fired_at entries l.id;
  price_override = l.price_override;
  price_override_reason = l.price_override_reason;
  modifiers = l.selected_modifiers;
}

abbrev pub customer_id_of : Option CartCustomer → Option Text
customer_id_of none = none
customer_id_of (some c) = given (some c.id)

-- `customer?.name || 'Walk-in'` and `customer?.phone || ''`.
abbrev pub customer_name_of : Option CartCustomer → Text
customer_name_of none = codes "Walk-in"
customer_name_of (some c) = get_or (given (some c.name)) (codes "Walk-in")

abbrev pub customer_phone_of : Option CartCustomer → Text
customer_phone_of none = []
customer_phone_of (some c) = get_or c.phone []

abbrev pub table_id_of : Option DiningTable → Option Text
table_id_of none = none
table_id_of (some t) = some t.id

abbrev pub table_name_of : Option DiningTable → Option Text
table_name_of none = none
table_name_of (some t) = some t.name

abbrev pub discount_id_of : Option CachedDiscount → Option Text
discount_id_of none = none
discount_id_of (some d) = some d.discount.id

abbrev pub discount_name_of : Option CachedDiscount → Option Text
discount_name_of none = none
discount_name_of (some d) = some d.name

abbrev pub discount_of : Option CachedDiscount → Option Discount
discount_of none = none
discount_of (some d) = some d.discount

unfoldable pub build_local_order : ℕ → Text → ℕ → CartState → LocalOrder
unfolding order_item_of
build_local_order now new_id tax_rate_bps cart =
    let t = cart_totals cart.lines (discount_of cart.discount) tax_rate_bps 0 false in
    record {
      id = get_or (or_else cart.tab_order_id cart.resumed_order_id) new_id;
      server_id = none;
      ticket_number = none;
      status = held;
      items = map (order_item_of cart.fired_at_by_line) cart.lines;
      customer_id = customer_id_of cart.customer;
      customer_name = customer_name_of cart.customer;
      customer_phone = customer_phone_of cart.customer;
      table_id = table_id_of cart.table;
      table_name = table_name_of cart.table;
      guests = cart.guests;
      order_type = cart.order_type;
      subtotal = t.subtotal;
      discount_id = discount_id_of cart.discount;
      discount_name = discount_name_of cart.discount;
      discount_amount = t.discount_amount;
      tax_amount = t.tax_amount;
      total_amount = t.total_amount;
      payment_method = none;
      tendered_amount = none;
      change_amount = none;
      tip_amount = 0;
      service_charge_amount = 0;
      loyalty_points_redeemed = 0;
      special_instructions = none;
      error_message = none;
      created_at = now;
      synced_at = none;
      tab_opened_at = cart.tab_opened_at;
      by_course = cart.by_course;
      business_day_id = none;
    }

-- ===== src/Printing.antt =====
-- apps/backend/src/orders/order-print.service.ts: which documents an order prints, and what is on them.
-- A job that is created is an element of the answer; each creation succeeds. The settings are those of the
-- order's location, as they were read from its JSON: a count that is no number is absent.
pub mod Laws
pub mod Coursed
use antd_platform.Prelude.{
  ℕ, Bool, true, false, ◌&&◌, ◌||◌, not, Option, none, some, List, [], ◌∷◌, ◌++◌, map, Text,
  text_eq, any, filter, find, get_or, is_some, if◌then◌else◌, min, max, replicate, ◌==◌,
}
use antd_platform.Prelude.Int.{ℤ, pos_part}
use antd_platform.Database.{Snapshot}
use antd_platform.Orders.Fire.{is_course}
use antd_platform.Pricing.Discounts.{given}

pub record PrintItem : Type 0 where
  pub name : Text
  pub quantity : ℕ
  pub price : ℕ
  pub modifiers : List Snapshot
  pub notes : Option Text
  pub course : Option ℕ
  pub fired_at : Option ℕ

pub record FullOrder : Type 0 where
  pub id : Text
  pub location_id : Option Text
  pub by_course : Bool
  pub ticket_number : Option ℕ
  pub customer_name : Text
  pub customer_phone : Text
  pub subtotal : Option ℕ
  pub tax_amount : Option ℕ
  pub tip_amount : Option ℕ
  pub discount_amount : Option ℕ
  pub discount_name : Option Text
  pub total_amount : ℕ
  pub order_type : Option Text
  pub special_instructions : Option Text
  pub paid_at : Option ℕ
  pub created_at : ℕ
  pub items : List PrintItem

-- A document's row of the matrix, as it is stored.
pub record StoredRow : Type 0 where
  pub on_save : Bool
  pub on_update : Bool
  pub on_paid : Bool
  pub copies : Option ℤ

-- `kitchen` and `receipt`, and the settings of before the matrix.
pub record PrintSettings : Type 0 where
  pub kitchen : Option StoredRow
  pub receipt : Option StoredRow
  pub kitchen_enabled : Option Bool
  pub receipt_enabled : Option Bool
  pub kitchen_copies : Option ℤ
  pub receipt_copies : Option ℤ
  pub hold_unpaid_kitchen : Option Bool

pub record PlanRow : Type 0 where
  pub on_save : Bool
  pub on_update : Bool
  pub on_paid : Bool
  pub copies : ℕ

pub record PrintPlan : Type 0 where
  pub kitchen : PlanRow
  pub receipt : PlanRow

-- `Math.min(5, Math.max(1, Math.round(Number(v)) || 1))`; what is below zero counts as zero here.
unfoldable pub clamp_copies : Option ℤ → ℕ
clamp_copies none = 1
clamp_copies (some v) = min 5 (max 1 (pos_part v))

unfoldable pub default_plan : PrintPlan
default_plan = record {
  kitchen = record { on_save = true; on_update = true; on_paid = false; copies = 1 };
  receipt = record { on_save = false; on_update = false; on_paid = true; copies = 1 };
}

abbrev pub plan_row : StoredRow → PlanRow
plan_row m = record {
  on_save = m.on_save;
  on_update = m.on_update;
  on_paid = m.on_paid;
  copies = clamp_copies m.copies;
}

-- `!== false` and `=== true`.
abbrev pub not_off : Option Bool → Bool
not_off b = get_or b true

abbrev pub is_on : Option Bool → Bool
is_on b = get_or b false

unfoldable pub kitchen_row : PrintSettings → PlanRow
unfolding clamp_copies
kitchen_row s = elim s.kitchen [
  | some m ↦ plan_row m
  | none ↦ record {
    on_save = not_off s.kitchen_enabled && not (is_on s.hold_unpaid_kitchen);
    on_update = not_off s.kitchen_enabled && not (is_on s.hold_unpaid_kitchen);
    on_paid = not_off s.kitchen_enabled && is_on s.hold_unpaid_kitchen;
    copies = clamp_copies s.kitchen_copies;
  }
]

unfoldable pub receipt_row : PrintSettings → PlanRow
unfolding clamp_copies
receipt_row s = elim s.receipt [
  | some m ↦ plan_row m
  | none ↦ record {
    on_save = false;
    on_update = false;
    on_paid = not_off s.receipt_enabled;
    copies = clamp_copies s.receipt_copies;
  }
]

-- `loc?.printSettings ?? {}`.
abbrev pub no_settings : PrintSettings
no_settings = record {
  kitchen = none;
  receipt = none;
  kitchen_enabled = none;
  receipt_enabled = none;
  kitchen_copies = none;
  receipt_copies = none;
  hold_unpaid_kitchen = none;
}

abbrev pub Stored : Type 0
Stored = List (Text × Option PrintSettings)

unfoldable pub settings_at : Text → Stored → PrintSettings
settings_at id [] = no_settings
settings_at id ((l, s) ∷ rows) = if text_eq l id then get_or s no_settings else settings_at id rows

unfoldable pub get_print_plan : Stored → Option Text → PrintPlan
unfolding default_plan kitchen_row receipt_row settings_at
get_print_plan stored location = elim (given location) [
  | none ↦ default_plan
  | some id ↦
      let s = settings_at id stored in record { kitchen = kitchen_row s; receipt = receipt_row s }
]

pub data JobType : Type 0 where
  kitchen receipt : JobType

pub record PayloadItem : Type 0 where
  pub name : Text
  pub quantity : ℕ
  pub price : ℕ
  pub modifiers : List Snapshot
  pub notes : Option Text
  pub course : Option ℕ

pub record Payload : Type 0 where
  pub order_id : Text
  pub ticket_number : Option ℕ
  pub updated : Bool
  pub customer_name : Text
  pub customer_phone : Text
  pub subtotal : Option ℕ
  pub tax_amount : Option ℕ
  pub tip_amount : Option ℕ
  pub discount_amount : Option ℕ
  pub discount_name : Option Text
  pub total_amount : ℕ
  pub order_type : Option Text
  pub special_instructions : Option Text
  pub course : Option ℕ
  pub items : List PayloadItem
  pub created_at : ℕ

abbrev pub payload_item : PrintItem → PayloadItem
payload_item i = record {
  name = i.name;
  quantity = i.quantity;
  price = i.price;
  modifiers = i.modifiers;
  notes = i.notes;
  course = i.course;
}

abbrev pub items_of : Option ℕ → List PrintItem → List PrintItem
items_of none items = items
items_of (some c) items = filter (λ i. is_course c i.course) items

unfoldable pub build_print_payload : FullOrder → Bool → Option ℕ → Payload
build_print_payload o updated course = record {
  order_id = o.id;
  ticket_number = o.ticket_number;
  updated = updated;
  customer_name = o.customer_name;
  customer_phone = o.customer_phone;
  subtotal = o.subtotal;
  tax_amount = o.tax_amount;
  tip_amount = o.tip_amount;
  discount_amount = o.discount_amount;
  discount_name = o.discount_name;
  total_amount = o.total_amount;
  order_type = o.order_type;
  special_instructions = o.special_instructions;
  course = course;
  items = map payload_item (items_of course o.items);
  created_at = o.created_at;
}

pub record PrintJob : Type 0 where
  pub organization_id : Text
  pub order_id : Text
  pub job_type : JobType
  pub payload : Payload

pub data OrderEvent : Type 0 where
  save update paid : OrderEvent

unfoldable pub same_event : OrderEvent → OrderEvent → Bool
same_event save save = true
same_event update update = true
same_event paid paid = true
same_event a b = false

unfoldable pub triggered : PlanRow → List OrderEvent → Bool
unfolding same_event
triggered cfg events =
    (any (same_event save) events && cfg.on_save)
    || (any (same_event update) events && cfg.on_update)
    || (any (same_event paid) events && cfg.on_paid)

abbrev pub job : Text → FullOrder → JobType → Payload → PrintJob
job org o type payload = record {
  organization_id = org;
  order_id = o.id;
  job_type = type;
  payload = payload;
}

-- The copies of one document, if an event triggers it.
unfoldable pub document :
    Text → FullOrder → JobType → PlanRow → List OrderEvent → Payload → List PrintJob
unfolding triggered
document org o type cfg events payload =
    if triggered cfg events then replicate cfg.copies (job org o type payload) else []

-- A coursed order prints no kitchen ticket here.
unfoldable pub print_for_events : Stored → Text → FullOrder → List OrderEvent → Bool → List PrintJob
unfolding get_print_plan build_print_payload document
print_for_events stored org o events updated =
    let plan = get_print_plan stored o.location_id in
    let payload = build_print_payload o updated none in
    (if o.by_course then [] else document org o kitchen plan.kitchen events payload)
    ++ document org o receipt plan.receipt events payload

unfoldable pub print_items : Stored → Text → FullOrder → Payload → List PayloadItem → List PrintJob
unfolding get_print_plan
print_items stored org o payload [] = []
print_items stored org o payload (i ∷ is) =
    replicate (get_print_plan stored o.location_id).kitchen.copies (job org o kitchen payload)

unfoldable pub print_course : Stored → Text → FullOrder → ℕ → List PrintJob
unfolding print_items build_print_payload
print_course stored org o course =
    let payload = build_print_payload o false (some course) in
    print_items stored org o payload payload.items

-- What a new order prints (orders.service.ts, `dispatchOrderSideEffects`).
unfoldable pub print_created : Stored → Text → FullOrder → List PrintJob
unfolding print_for_events print_course
print_created stored org o =
    print_for_events stored org o (if is_some o.paid_at then save ∷ paid ∷ [] else save ∷ []) false
    ++ (if o.by_course then print_course stored org o 1 else [])

-- What a manual reprint has on it.
pub record ManualItem : Type 0 where
  pub name : Text
  pub quantity : ℕ
  pub price : ℕ

pub record ManualJob : Type 0 where
  pub organization_id : Text
  pub order_id : Text
  pub job_type : JobType
  pub printer_id : Option Text
  pub customer_name : Text
  pub customer_phone : Text
  pub subtotal : Option ℕ
  pub tax_amount : Option ℕ
  pub tip_amount : Option ℕ
  pub discount_amount : Option ℕ
  pub discount_name : Option Text
  pub total_amount : ℕ
  pub items : List ManualItem
  pub created_at : ℕ

abbrev pub manual_item : PrintItem → ManualItem
manual_item i = record { name = i.name; quantity = i.quantity; price = i.price }

abbrev pub manual_job : Text → FullOrder → Option Text → JobType → ManualJob
manual_job org o printer type = record {
  organization_id = org;
  order_id = o.id;
  job_type = type;
  printer_id = printer;
  customer_name = o.customer_name;
  customer_phone = o.customer_phone;
  subtotal = o.subtotal;
  tax_amount = o.tax_amount;
  tip_amount = o.tip_amount;
  discount_amount = o.discount_amount;
  discount_name = o.discount_name;
  total_amount = o.total_amount;
  items = map manual_item o.items;
  created_at = o.created_at;
}

-- A reprint by hand: one kitchen ticket and one receipt with every line, whatever the order is served by.
unfoldable pub print_order : Text → FullOrder → Option Text → List ManualJob
print_order org o printer = manual_job org o printer kitchen ∷ manual_job org o printer receipt ∷ []

-- ===== src/Examples/Documents.antt =====
-- A tab that is loaded again, and what an order prints.
use mathlib.Core.List.Memᴰ
use antd_platform.Prelude.{
  Option, Text, map, ◌≡◌, refl, true, false, none, some, [], ◌∷◌, ◌++◌, codes, All, if◌then◌else◌,
  not, ◌&&◌, get_or,
}
use antd_platform.Cart.{CartLine}
use antd_platform.Register.Snapshots.{CartState, build_local_order, load_tab, tab_delta}
use antd_platform.Register.Snapshots.Rebuilt.{load_tab-build}
use antd_platform.Printing.{
  ManualJob, ManualItem, print_order, FullOrder, PrintItem, save, paid, update, print_for_events,
  print_course, print_created, get_print_plan, triggered, kitchen, receipt,
}
use antd_platform.Printing.Laws.{IsCopies, count_of, print_for_events-count}
use antd_platform.Printing.Coursed.{IsCoursed, only_courses_printed}
use antd_platform.Examples.Fixtures.{acme, main_street, tab}

abbrev tea : CartLine
tea = record {
  id = codes "l1";
  product = record { id = codes "tea"; name = codes "Tea"; price = 300; tax_exempt = true };
  quantity = 2;
  notes = none;
  course = some 1;
  selected_modifiers = [];
  price_override = none;
  price_override_reason = none;
}

abbrev seated : CartState
seated = record {
  lines = tea ∷ [];
  customer = some (record { id = codes "p1"; name = codes "Ann"; phone = none });
  table = some (record { id = codes "t4"; name = codes "Four"; capacity = 4 });
  guests = some 2;
  order_type = codes "dine_in";
  discount = none;
  resumed_order_id = none;
  tab_order_id = some (codes "c1");
  tab_opened_at = none;
  tab_baseline = [];
  by_course = true;
  fired_at_by_line = (codes "l1", some 3) ∷ [];
}

load_tab-build_example :
    let order = build_local_order 1 (codes "c2") 1000 seated in
    let loaded = load_tab [] order in
    (build_local_order 5 (codes "c3") 1000 loaded ≡ record order {
      created_at = 5;
      tab_opened_at = some (get_or order.tab_opened_at order.created_at);
    })
    × (tab_delta loaded ≡ [])
load_tab-build_example =
    load_tab-build 1 5 (codes "c2") (codes "c3") 1000 [] seated refl (refl, refl) tt (tt, tt)

abbrev soup : PrintItem
soup = record {
  name = codes "Soup";
  quantity = 1;
  price = 500;
  modifiers = [];
  notes = none;
  course = some 1;
  fired_at = none;
}

abbrev printed_order : FullOrder
printed_order = record {
  id = tab;
  location_id = some main_street;
  by_course = true;
  ticket_number = some 7;
  customer_name = codes "Walk-in";
  customer_phone = [];
  subtotal = some 800;
  tax_amount = some 80;
  tip_amount = none;
  discount_amount = none;
  discount_name = none;
  total_amount = 880;
  order_type = none;
  special_instructions = none;
  paid_at = none;
  created_at = 1;
  items = soup ∷ record soup { name = codes "Bread"; course = none } ∷ [];
}

print_for_events-count_example :
    let order = record printed_order { by_course = false } in
    let plan = get_print_plan [] order.location_id in
    let jobs = print_for_events [] acme order (save ∷ paid ∷ []) false in
    (count_of kitchen jobs
      ≡ (if not false && triggered plan.kitchen (save ∷ paid ∷ []) then plan.kitchen.copies else 0))
    × (count_of receipt jobs
        ≡ (if triggered plan.receipt (save ∷ paid ∷ []) then plan.receipt.copies else 0))
    × IsCopies plan.kitchen.copies
    × IsCopies plan.receipt.copies
print_for_events-count_example =
    print_for_events-count [] acme (record printed_order { by_course = false }) (save ∷ paid ∷ [])
      false

only_courses_printed_example :
    All IsCoursed (
      print_created [] acme printed_order
      ++ (print_for_events [] acme printed_order (update ∷ []) true
          ++ print_course [] acme printed_order 2))
    × ((printer : Option Text)
        → All
            (λ (j : ManualJob).
              map (λ (i : ManualItem). i.name) j.items
              ≡ map (λ (i : PrintItem). i.name) printed_order.items)
            (print_order acme printed_order printer))
only_courses_printed_example = only_courses_printed [] acme printed_order (update ∷ []) true 2 refl

-- ===== src/Pricing/Cart.antt =====
-- order-pricing.service.ts, `priceCartItems` and `taxableSubtotal`: a cart priced from the menu.
-- Absent modifiers are an empty list; prices, adjustments and quantities are not negative, as the
-- request and menu validation demand.
pub mod Options
pub mod Laws
use antd_platform.Prelude.{
  ℕ, ◌+◌, ◌*◌, Bool, true, false, ◌&&◌, not, Option, none, some, List, [], ◌∷◌, Text, text_eq,
  Result, ok, err, ◌>>=◌, ◌>>◌, refuse, require, need, if◌then◌else◌, find, filter, any, sum_of,
  is_some, ltb, leb, ◌==◌, get_or, map, length,
}
use antd_platform.Strings.{trimmed}
use antd_platform.Database.{OrderItem, Snapshot}

-- A row of menu_items joined to its category.
pub record MenuItem : Type 0 where
  pub id : Text
  pub organization_id : Text
  pub location_id : Option Text
  pub price : ℕ
  pub tax_exempt : Bool
  pub is_available : Bool
  pub is_deleted : Bool
  pub stock_quantity : Option ℕ

-- A row of menu_item_modifiers joined to its group.
pub record ModifierOption : Type 0 where
  pub id : Text
  pub name : Text
  pub price_adjustment : ℕ
  pub modifier_id : Text
  pub modifier_name : Text
  pub organization_id : Text
  pub is_deleted : Bool

-- A row of menu_item_to_modifiers joined to its group.
pub record Attachment : Type 0 where
  pub menu_item_id : Text
  pub modifier_id : Text
  pub is_required : Bool
  pub multi_select : Bool
  pub max_selections : Option ℕ
  pub is_deleted : Bool

pub record Menu : Type 0 where
  pub items : List MenuItem
  pub options : List ModifierOption
  pub attachments : List Attachment

pub record LineDto : Type 0 where
  pub menu_item_id : Text
  pub quantity : ℕ
  pub option_ids : List Text
  pub notes : Option Text
  pub course : Option ℕ
  pub price_override : Option ℕ
  pub price_override_reason : Option Text

pub record ResolvedCartItem : Type 0 where
  pub menu_item_id : Text
  pub quantity : ℕ
  pub price : ℕ
  pub modifiers : List Snapshot
  pub notes : Option Text
  pub course : Option ℕ
  pub tax_exempt : Bool
  pub price_overridden : Bool
  pub price_override_reason : Option Text

pub data PricingError : Type 0 where
  item_not_found option_not_found option_not_attached missing_required single_only : PricingError
  too_many_selections : PricingError

-- `dbItemsMap.get(id)`: the item, if the organization sells it now.
unfoldable pub menu_item_of : Menu → Text → Text → Option MenuItem
menu_item_of menu org id =
    find
      (λ m. text_eq m.id id && text_eq m.organization_id org && not m.is_deleted && m.is_available)
      menu.items

-- `optionMap.get(id)`.
unfoldable pub option_of : Menu → Text → Text → Option ModifierOption
option_of menu org id =
    find (λ o. text_eq o.id id && text_eq o.organization_id org && not o.is_deleted) menu.options

-- `attachedByItem.get(id) ?? []`.
unfoldable pub attached_to : Menu → Text → List Attachment
attached_to menu id = filter (λ a. text_eq a.menu_item_id id && not a.is_deleted) menu.attachments

unfoldable pub is_attached : List Attachment → Text → Bool
is_attached attached modifier_id = any (λ a. text_eq a.modifier_id modifier_id) attached

-- The options of a line in the order of the request, each found and attached.
unfoldable pub select_options :
    Menu → Text → List Attachment → List Text → Result PricingError (List ModifierOption)
select_options menu org attached [] = ok []
select_options menu org attached (id ∷ ids) = do
  o ← need (option_of menu org id) option_not_found
  require (is_attached attached o.modifier_id) option_not_attached
  rest ← select_options menu org attached ids
  ok (o ∷ rest)

-- `selectionCounts.get(group) ?? 0`.
unfoldable pub selection_count : Text → List ModifierOption → ℕ
selection_count group os = length (filter (λ o. text_eq o.modifier_id group) os)

unfoldable pub check_group : List ModifierOption → Attachment → Result PricingError (Unit {0})
check_group selected group = do
  let count = selection_count group.modifier_id selected
  refuse (group.is_required && count == 0) missing_required
  refuse (not group.multi_select && ltb 1 count) single_only
  refuse
      (group.multi_select
        && (elim group.max_selections [ none ↦ false | some most ↦ ltb most count ]))
      too_many_selections

unfoldable pub check_groups : List ModifierOption → List Attachment → Result PricingError (Unit {0})
check_groups selected [] = ok tt
check_groups selected (group ∷ groups) = check_group selected group >> check_groups selected groups

abbrev pub snapshot : ModifierOption → Snapshot
snapshot o = record {
  option_id = o.id;
  modifier = o.modifier_name;
  option = o.name;
  price_adjustment = o.price_adjustment;
}

-- An override replaces the menu price and the adjustments.
unfoldable pub unit_price : LineDto → MenuItem → List ModifierOption → ℕ
unit_price line item selected =
    get_or line.price_override (item.price + sum_of (λ o. o.price_adjustment) selected)

unfoldable pub resolve_line : Menu → Text → LineDto → Result PricingError ResolvedCartItem
resolve_line menu org line = do
  item ← need (menu_item_of menu org line.menu_item_id) item_not_found
  selected ← select_options menu org (attached_to menu line.menu_item_id) line.option_ids
  check_groups selected (attached_to menu line.menu_item_id)
  ok (record {
    menu_item_id = line.menu_item_id;
    quantity = line.quantity;
    price = unit_price line item selected;
    modifiers = map snapshot selected;
    notes = trimmed line.notes;
    course = line.course;
    tax_exempt = item.tax_exempt;
    price_overridden = is_some line.price_override;
    price_override_reason =
        if is_some line.price_override then trimmed line.price_override_reason else none;
  })

-- The `map` over the lines, with the subtotal that it accumulates.
unfoldable pub price_lines :
    Menu → Text → ℕ → List LineDto → Result PricingError (List ResolvedCartItem × ℕ)
price_lines menu org subtotal [] = ok ([], subtotal)
price_lines menu org subtotal (line ∷ lines) = do
  item ← resolve_line menu org line
  rest ← price_lines menu org (subtotal + item.price * item.quantity) lines
  ok (item ∷ rest.0, rest.1)

unfoldable pub price_cart_items :
    Menu → Text → List LineDto → Result PricingError (List ResolvedCartItem × ℕ)
unfolding price_lines
price_cart_items menu org lines = price_lines menu org 0 lines

unfoldable pub taxable_subtotal : List ResolvedCartItem → ℕ
taxable_subtotal = sum_of (λ i. if i.tax_exempt then 0 else i.price * i.quantity)

-- The row that is stored for an item.
abbrev pub order_item : Option ℕ → ResolvedCartItem → OrderItem
order_item fired_at i = record {
  menu_item_id = i.menu_item_id;
  quantity = i.quantity;
  price = i.price;
  modifiers = i.modifiers;
  notes = i.notes;
  course = i.course;
  fired_at = fired_at;
}

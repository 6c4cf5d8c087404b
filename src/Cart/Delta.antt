-- ===== src/Cart/Delta.antt =====
-- cartOps.ts, `linesDelta`: what was added to a tab since it was loaded, as it is sent to the server.
pub mod Laws
use antd_platform.Prelude.{
  ℕ, ◌-◌, Bool, Option, none, some, List, [], ◌∷◌, ◌++◌, Text, text_eq, if◌then◌else◌, ltb, get_or,
  max, replicate,
}
use antd_platform.Cart.{CartLine, SelectedModifier}

-- One entry for each unit of an option, and at least one.
unfoldable pub option_ids_for : List SelectedModifier → List Text
option_ids_for [] = []
option_ids_for (m ∷ ms) = replicate (max 1 (get_or m.quantity 1)) m.option_id ++ option_ids_for ms

-- `new Map(baseline.map((l) => [l.id, l.quantity]))`: a later line overwrites an earlier one.
unfoldable pub quantity_before : List CartLine → Text → Option ℕ
quantity_before [] id = none
quantity_before (l ∷ ls) id = elim (quantity_before ls id) [
  | some q ↦ some q
  | none ↦ if text_eq l.id id then some l.quantity else none
]

pub record DeltaItem : Type 0 where
  pub menu_item_id : Text
  pub quantity : ℕ
  pub notes : Option Text
  pub course : Option ℕ
  pub option_ids : List Text
  pub price_override : Option ℕ
  pub price_override_reason : Option Text

abbrev pub delta_item : CartLine → ℕ → DeltaItem
delta_item line added = record {
  menu_item_id = line.product.id;
  quantity = added;
  notes = line.notes;
  course = line.course;
  option_ids = option_ids_for line.selected_modifiers;
  price_override = line.price_override;
  price_override_reason = line.price_override_reason;
}

-- Only a positive difference counts.
unfoldable pub lines_delta : List CartLine → List CartLine → List DeltaItem
unfolding quantity_before
lines_delta baseline [] = []
lines_delta baseline (line ∷ current) =
    let before = get_or (quantity_before baseline line.id) 0 in
    let rest = lines_delta baseline current in
    if ltb before line.quantity then delta_item line (line.quantity - before) ∷ rest else rest

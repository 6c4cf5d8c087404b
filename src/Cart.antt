-- ===== src/Cart.antt =====
-- apps/pos/src/state/cartOps.ts: the pure operations of the register's cart. New line ids are given
-- by the caller, who takes them from newId. Prices, adjustments and quantities in the cart are not
-- negative; an edited quantity may be.
pub mod Signature
pub mod Lines
pub mod Totals
pub mod Split
pub mod Delta
use antd_platform.Prelude.{
  ℕ, ◌+◌, ◌*◌, Bool, Option, none, some, List, [], ◌∷◌, Text, sum_of, get_or,
}

pub record SelectedModifier : Type 0 where
  pub modifier_id : Text
  pub option_id : Text
  pub price_adjustment : ℕ
  pub quantity : Option ℕ

pub record Product : Type 0 where
  pub id : Text
  pub name : Text
  pub price : ℕ
  pub tax_exempt : Bool

-- `selectedModifiers` that are left out are an empty list: the two are read alike everywhere.
pub record CartLine : Type 0 where
  pub id : Text
  pub product : Product
  pub quantity : ℕ
  pub notes : Option Text
  pub course : Option ℕ
  pub selected_modifiers : List SelectedModifier
  pub price_override : Option ℕ
  pub price_override_reason : Option Text

-- Cents added per unit by the selected modifiers, counting quantities.
unfoldable pub modifier_adjustment_for : CartLine → ℕ
modifier_adjustment_for line =
    sum_of (λ m. m.price_adjustment * get_or m.quantity 1) line.selected_modifiers

-- An override replaces the base price and the adjustments.
unfoldable pub line_unit_price : CartLine → ℕ
unfolding modifier_adjustment_for
line_unit_price line =
    get_or line.price_override (line.product.price + modifier_adjustment_for line)

-- What a line costs.
abbrev pub line_cost : CartLine → ℕ
line_cost l = line_unit_price l * l.quantity

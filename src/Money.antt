-- ===== src/Money.antt =====
-- The money arithmetic that the register (apps/pos/src/utils/money.ts) and the server
-- (apps/backend/src/orders/order-pricing.service.ts) share. Cents are whole numbers; a product below
-- 2^50 is divided by 100 or 10000 exactly enough in a double for Math.round to see the right half.
pub mod Bounds
use antd_platform.Prelude.{
  ℕ, Bool, ◌+◌, ◌*◌, ◌/◌, Option, none, some, min, ◌==◌, if◌then◌else◌, Text,
}
use antd_platform.Prelude.Int.{ℤ, pos, negsuc, round_div, pos_part, neg}

pub data DiscountType : Type 0 where
  percent fixed : DiscountType

-- `value` is a whole percentage, or cents off. The table demands that it is not negative; the arithmetic is
-- modelled for any value, as its clamp at 0 is.
pub record Discount : Type 0 where
  pub id : Text
  pub type : DiscountType
  pub value : ℤ
  pub requires_manager : Bool

-- `n * a` for a natural number n.
unfoldable pub scale : ℕ → ℤ → ℤ
scale n (pos m) = pos (n * m)
scale n (negsuc m) = neg (pos (n * (m + 1)))

unfoldable pub raw_discount : DiscountType → ℕ → ℤ → ℤ
unfolding scale round_div
raw_discount percent subtotal value = round_div (scale subtotal value) 100
raw_discount fixed subtotal value = value

-- `Math.min(subtotal, Math.max(0, raw))`: the positive part of an integer is its maximum with 0.
unfoldable pub discount_amount_for : Option Discount → ℕ → ℕ
unfolding raw_discount
discount_amount_for none subtotal = 0
discount_amount_for (some d) subtotal =
    min subtotal (pos_part (raw_discount d.type subtotal d.value))

-- `Math.round((amount * bps) / 10000)` for an amount that is not negative.
unfoldable pub rate_of : ℕ → ℕ → ℕ
rate_of amount bps = (amount * bps + 5000) / 10000

-- Tax in cents from a basis-points rate.
unfoldable pub tax_for : ℕ → ℕ → ℕ
unfolding rate_of
tax_for taxable_base tax_rate_bps = rate_of taxable_base tax_rate_bps

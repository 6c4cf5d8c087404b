-- ===== src/Cart/Totals.antt =====
-- cartOps.ts, `cartTotals`: what the register shows and prints before the server has seen the order.
use antd_platform.Prelude.{ℕ, ◌+◌, ◌-◌, Bool, Option, List, if◌then◌else◌, sum_of}
use antd_platform.Money.{Discount, discount_amount_for, rate_of, tax_for}
use antd_platform.Cart.{CartLine, line_cost}

pub record CartTotals : Type 0 where
  pub subtotal : ℕ
  pub discount_amount : ℕ
  pub service_charge_amount : ℕ
  pub tax_amount : ℕ
  pub total_amount : ℕ
  pub item_count : ℕ

unfoldable pub cart_totals : List CartLine → Option Discount → ℕ → ℕ → Bool → CartTotals
cart_totals lines discount tax_rate_bps service_charge_bps apply_service_charge =
    let subtotal = sum_of line_cost lines in
    let discount_amount = discount_amount_for discount subtotal in
    let taxable_base = subtotal - discount_amount in
    let service_charge_amount =
      if apply_service_charge then rate_of taxable_base service_charge_bps else 0 in
    let tax_amount = tax_for (taxable_base + service_charge_amount) tax_rate_bps in
    record {
      subtotal = subtotal;
      discount_amount = discount_amount;
      service_charge_amount = service_charge_amount;
      tax_amount = tax_amount;
      total_amount = taxable_base + service_charge_amount + tax_amount;
      item_count = sum_of (λ l. l.quantity) lines;
    }

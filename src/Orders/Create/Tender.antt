-- ===== src/Orders/Create/Tender.antt =====
-- The tender math of a new order, and its agreement with the register's.
use native.Mathlib.Nat.{mul-div-mul_left}
use antd_platform.Prelude.{
  ℕ, ◌+◌, ◌-◌, ◌*◌, ◌/◌, ◌≤◌, ◌<◌, ◌≡◌, refl, ap, ◌∙◌, arith, Bool, Option, none, some, List,
  sum_of, inl, inr, Bool-cases, ltb, if◌then◌else◌,
}
use antd_platform.Money.{Discount, discount_amount_for, rate_of, tax_for}
use antd_platform.Money.Bounds.{discount_amount_for_bounds}
use antd_platform.Pricing.Locations.{Location}
use antd_platform.Cart.{CartLine, line_cost}
use antd_platform.Cart.Totals.{cart_totals}
use antd_platform.Orders.Create.{PosTender, pos_tender, tax_on, round_ratio}

pub discount-le-subtotal : (d : Option Discount) (s : ℕ) → discount_amount_for d s ≤ s
unfolding discount_amount_for
discount-le-subtotal none s = omega arith
discount-le-subtotal (some d) s = (discount_amount_for_bounds d s).0

-- The amounts of a tender fit together.
pub record IsBalanced (t : PosTender) (redeem_points : ℕ) : Type 0 where
  pub total_is :
      t.total_amount + t.redemption_amount + t.discount_amount
      ≡ t.subtotal + t.service_charge_amount + t.tax_amount + t.tip_amount
  pub discount_within : t.discount_amount ≤ t.subtotal
  pub redemption_within : t.redemption_amount ≤ redeem_points

pub pos_tender-IsBalanced :
    (subtotal taxable : ℕ) (d : Option Discount) (l : Location) (charge : Bool) (tip points : ℕ)
    → IsBalanced (pos_tender subtotal taxable d l charge tip points) points
unfolding pos_tender
pos_tender-IsBalanced subtotal taxable d l charge tip points =
    let within = discount-le-subtotal d subtotal in
    record {
      total_is = omega (arith, within);
      discount_within = within;
      redemption_within = omega arith;
    }

round_ratio-scale : (s x : ℕ) → 0 < s → round_ratio (s * x) (s * 10000) ≡ (x + 5000) / 10000
unfolding round_ratio
round_ratio-scale s x positive =
    let top : 2 * (s * x) + s * 10000 ≡ 2 * s * (x + 5000) = omega arith in
    let bottom : 2 * (s * 10000) ≡ 2 * s * 10000 = omega arith in
    ap (λ n. n / (2 * (s * 10000))) top
    ∙ ap (λ d. 2 * s * (x + 5000) / d) bottom
    ∙ mul-div-mul_left (x + 5000) 10000 (omega arith)

-- With nothing exempt, the tax is the rate of the discounted base with the service charge.
tax_on-all : (s d c rate : ℕ) → d ≤ s → tax_on s d s c rate ≡ rate_of (s - d + c) rate
unfolding tax_on rate_of
tax_on-all s d c rate within = elim (Bool-cases (ltb 0 s)) [
  | inl t ↦
      let b : ℕ = s - d in
      let square : s * s ≡ d * s + b * s = ap (λ x. x * s) (the_sum s d within) ∙ omega arith in
      let base : (s * s - d * s + c * s) * rate ≡ s * ((b + c) * rate) =
        ap (λ x. (x + c * s) * rate) (difference s d b square) ∙ omega arith in
      rw (tax_on, t)
        (ap (λ n. round_ratio n (s * 10000)) base
          ∙ round_ratio-scale s ((b + c) * rate) (ground arith))
  | inr t ↦
      let nothing : s ≡ 0 = ground arith in
      rw (tax_on, t) (ap (λ n. (n * rate + 5000) / 10000) (omega (arith, nothing)))
]
  where
    the_sum : (s d : ℕ) → d ≤ s → s ≡ d + (s - d)
    the_sum s d h = omega arith

    difference : (s d b : ℕ) → s * s ≡ d * s + b * s → s * s - d * s ≡ b * s
    difference s d b h = omega (arith, h)

-- What the register shows for a cart is what the server charges for its subtotal, amount by amount,
-- where no line is exempt from tax, and no tip and no points are added.
pub pos_tender-cart_totals :
    (lines : List CartLine) (d : Option Discount) (l : Location) (charge : Bool)
    → let subtotal = sum_of line_cost lines in
      let server = pos_tender subtotal subtotal d l charge 0 0 in
      let register = cart_totals lines d l.tax_rate_bps l.service_charge_bps charge in
      (server.discount_amount ≡ register.discount_amount)
      × (server.service_charge_amount ≡ register.service_charge_amount)
      × (server.tax_amount ≡ register.tax_amount)
      × (server.total_amount ≡ register.total_amount)
unfolding pos_tender cart_totals tax_for
pos_tender-cart_totals lines d l charge =
    let s : ℕ = sum_of line_cost lines in
    let off : ℕ = discount_amount_for d s in
    let c : ℕ = if charge then rate_of (s - off) l.service_charge_bps else 0 in
    let tax = tax_on-all s off c l.tax_rate_bps (discount-le-subtotal d s) in
    (refl, refl, tax, omega (arith, tax))

-- ===== src/Money/Bounds.antt =====
-- How large a discount and a tax can be.
use antd_platform.Prelude.{
  ℕ, ◌+◌, ◌*◌, ◌-◌, ◌/◌, ◌≤◌, ◌<◌, ◌≡◌, refl, some, arith, min, ◌⊎◌, inl, inr,
}
use antd_platform.Prelude.Int.{ℤ, pos, negsuc, round_div, pos_part, neg, ◌≤ℤ◌}
use antd_platform.Money.{
  Discount, DiscountType, percent, fixed, discount_amount_for, rate_of, raw_discount, scale,
}

raw_discount-nonpos :
    (ty : DiscountType) (s : ℕ) (v : ℤ) → v ≤ℤ pos 0 → pos_part (raw_discount ty s v) ≡ 0
unfolding raw_discount neg
raw_discount-nonpos percent s (pos n) h =
    let none_left : n ≡ 0 = omega arith in rw none_left (grind arith)
raw_discount-nonpos percent s (negsuc n) h = ground arith
raw_discount-nonpos fixed s (pos n) h = omega arith
raw_discount-nonpos fixed s (negsuc n) h = refl

positive_or_not : (v : ℤ) → (pos 1 ≤ℤ v) ⊎ (v ≤ℤ pos 0)
positive_or_not v = ground arith

-- A discount never exceeds the subtotal, whatever its value, and a value that is not positive
-- takes nothing off.
pub discount_amount_for_bounds :
    (d : Discount) (subtotal : ℕ)
    → (discount_amount_for (some d) subtotal ≤ subtotal)
      × ((pos 1 ≤ℤ d.value) ⊎ (discount_amount_for (some d) subtotal ≡ 0))
unfolding discount_amount_for
discount_amount_for_bounds d subtotal = (
  omega arith,
  elim (positive_or_not d.value) [
    | inl h ↦ inl h
    | inr h ↦ inr (omega (arith, raw_discount-nonpos d.type subtotal d.value h))
  ],
)

-- The part of a whole percentage that is taken off, and what is left: both grow with the amount.
percent_grows :
    (p s t : ℕ)
    → s ≤ t
    → p ≤ 100
    → ((s * p + 50) / 100 ≤ (t * p + 50) / 100) × (s - (s * p + 50) / 100 ≤ t - (t * p + 50) / 100)
percent_grows p s t h k =
    let more : s * p ≤ t * p = grind arith in
    let less : t * p ≤ s * p + (t - s) * 100 = grind arith in (omega arith, omega arith)

raw_discount_grows :
    (ty : DiscountType) (v : ℤ) (s t : ℕ)
    → s ≤ t
    → (v ≤ℤ pos 100) ⊎ (ty ≡ fixed)
    → (min s (pos_part (raw_discount ty s v)) ≤ min t (pos_part (raw_discount ty t v)))
      × (s - min s (pos_part (raw_discount ty s v)) ≤ t - min t (pos_part (raw_discount ty t v)))
raw_discount_grows percent (pos n) s t h (inl k) =
    unfold raw_discount scale round_div in
    let (up, net) = percent_grows n s t h (omega arith) in (omega arith, omega arith)
raw_discount_grows percent (negsuc n) s t h k = omega (
  arith,
  raw_discount-nonpos percent s (negsuc n) (omega arith),
  raw_discount-nonpos percent t (negsuc n) (omega arith),
)
raw_discount_grows percent (pos n) s t h (inr e) = absurd (ground arith)
raw_discount_grows fixed (pos n) s t h k = unfold raw_discount in (omega arith, omega arith)
raw_discount_grows fixed (negsuc n) s t h k = unfold raw_discount in (omega arith, omega arith)

-- With a percentage of at most 100, or any fixed amount, a larger subtotal gets no smaller discount
-- and leaves no less to pay.
pub discount_amount_for_mono :
    (d : Discount) (s t : ℕ)
    → (d.value ≤ℤ pos 100) ⊎ (d.type ≡ fixed)
    → s ≤ t
    → (discount_amount_for (some d) s ≤ discount_amount_for (some d) t)
      × (s - discount_amount_for (some d) s ≤ t - discount_amount_for (some d) t)
unfolding discount_amount_for
discount_amount_for_mono d s t v h = raw_discount_grows d.type d.value s t h v

-- `Math.round` of a rate takes the nearest cent, and half a cent goes up.
pub rate_of_nearest :
    (amount bps : ℕ)
    → (rate_of amount bps * 10000 ≤ amount * bps + 5000)
      × (amount * bps < rate_of amount bps * 10000 + 5000)
unfolding rate_of
rate_of_nearest amount bps = omega arith

pub rate_of-le : (amount bps : ℕ) → bps ≤ 10000 → rate_of amount bps ≤ amount
unfolding rate_of
rate_of-le amount bps h = grind arith

pub rate_of_mono : (a b bps : ℕ) → a ≤ b → rate_of a bps ≤ rate_of b bps
unfolding rate_of
rate_of_mono a b bps h = grind arith

-- ===== src/Orders/Payment/Refund/Rows.antt =====
-- The rows that a full refund writes: what they add up to, and which payments they take back.
use antd_platform.Prelude.{
  ℕ, ◌+◌, ◌≡◌, refl, arith, Text, List, [], ◌∷◌, Bool, true, false, sum_of, All, inl, inr,
  Bool-cases, ◌||◌,
}
use antd_platform.Prelude.Int.{
  ℤ, pos, neg, ◌+ℤ◌, ◌-ℤ◌, ◌≤ℤ◌, int_laws, sum_ℤ, leb_ℤ, pos_part, +ℤ_parts, -ℤ_parts, neg_parts,
}
use antd_platform.Database.{Payment}
use antd_platform.Database.Laws.{IsFor}
use antd_platform.Orders.Payment.{min_ℤ}
use antd_platform.Orders.Payment.Refund.{refund_rows, refund_row}

abbrev pub amount_of : Payment → ℤ
amount_of p = p.amount

-- What the positive rows add up to.
abbrev positive_sum : List Payment → ℕ
positive_sum = sum_of (λ p. pos_part p.amount)

pub sum-le-positive_sum : (ps : List Payment) → sum_ℤ amount_of ps ≤ℤ pos (positive_sum ps)
sum-le-positive_sum [] = omega arith
sum-le-positive_sum (p ∷ ps) =
    omega (int_laws, sum-le-positive_sum ps, +ℤ_parts p.amount (sum_ℤ amount_of ps))

abbrev skips : ℤ → Payment → Bool
skips r p = leb_ℤ p.amount (pos 0) || leb_ℤ r (pos 0)

skips_lem :
    (r : ℤ) (p : Payment) (n : ℕ)
    → pos 0 ≤ℤ r
    → r ≤ℤ pos (pos_part p.amount + n)
    → skips r p ≡ true
    → r ≤ℤ pos n
skips_lem r p n low high h = ground arith

not-skips_lem :
    (r : ℤ) (p : Payment) (n : ℕ)
    → r ≤ℤ pos (pos_part p.amount + n)
    → skips r p ≡ false
    → (pos 0 ≤ℤ r -ℤ min_ℤ p.amount r)
      × (r -ℤ min_ℤ p.amount r ≤ℤ pos n)
      × (pos 1 ≤ℤ min_ℤ p.amount r)
      × (min_ℤ p.amount r ≤ℤ p.amount)
not-skips_lem r p n high h = ground (arith, -ℤ_parts r (min_ℤ p.amount r))

neg-split : (r m : ℤ) → neg m +ℤ neg (r -ℤ m) ≡ neg r
neg-split r m = omega int_laws

-- The loop refunds all that is left, if the positive payments cover it.
pub refund_rows-sum :
    (manager : Text) (r : ℤ) (ps : List Payment)
    → pos 0 ≤ℤ r
    → r ≤ℤ pos (positive_sum ps)
    → sum_ℤ amount_of (refund_rows manager r ps) ≡ neg r
unfolding refund_rows
refund_rows-sum manager r [] low high = omega int_laws
refund_rows-sum manager r (p ∷ ps) low high = elim (Bool-cases (skips r p)) [
  | inl e ↦ rw e (refund_rows-sum manager r ps low (skips_lem r p (positive_sum ps) low high e))
  | inr e ↦
      let (low', high', _, _) = not-skips_lem r p (positive_sum ps) high e in
      let rest = refund_rows-sum manager (r -ℤ min_ℤ p.amount r) ps low' high' in
      rw (e, rest) (neg-split r (min_ℤ p.amount r))
]

-- A refund row for a payment takes back something, at most what was paid, by the same method.
abbrev pub Reverses : Payment → Payment → Type 0
Reverses p q =
    (q.order_id ≡ p.order_id)
    × (q.method ≡ p.method)
    × (neg p.amount ≤ℤ q.amount)
    × (q.amount ≤ℤ neg (pos 1))

-- The refund rows reverse payments among the given ones, in their order, each at most once.
pub data ReversesSome : List Payment → List Payment → Type 0 where
  done : ReversesSome [] []
  skipped : {ps qs : List Payment} (p : Payment) → ReversesSome ps qs → ReversesSome (p ∷ ps) qs
  reversed :
      {ps qs : List Payment} (p q : Payment)
      → Reverses p q
      → ReversesSome ps qs
      → ReversesSome (p ∷ ps) (q ∷ qs)

pub refund_rows-ReversesSome :
    (manager : Text) (r : ℤ) (ps : List Payment) → ReversesSome ps (refund_rows manager r ps)
unfolding refund_rows
refund_rows-ReversesSome manager r [] = done
refund_rows-ReversesSome manager r (p ∷ ps) = elim (Bool-cases (skips r p)) [
  | inl e ↦ rw e (skipped p (refund_rows-ReversesSome manager r ps))
  | inr e ↦
      let m = min_ℤ p.amount r in
      let (_, _, least, most) = not-skips_lem r p (pos_part r) (omega arith) e in
      rw e (
        reversed p (refund_row manager m p)
          (
            refl,
            refl,
            omega (int_laws, neg_parts m, neg_parts p.amount),
            omega (int_laws, neg_parts m),
          )
          (refund_rows-ReversesSome manager (r -ℤ m) ps))
]

pub refund_rows-IsFor :
    (id manager : Text) (r : ℤ) (ps : List Payment)
    → All (IsFor id) ps
    → All (IsFor id) (refund_rows manager r ps)
unfolding refund_rows
refund_rows-IsFor id manager r [] h = tt
refund_rows-IsFor id manager r (p ∷ ps) (h, hs) = elim (Bool-cases (skips r p)) [
  | inl e ↦ rw e (refund_rows-IsFor id manager r ps hs)
  | inr e ↦ rw e (h, refund_rows-IsFor id manager (r -ℤ min_ℤ p.amount r) ps hs)
]

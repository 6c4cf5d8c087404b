-- ===== src/Register/Drawer/Tabs.antt =====
-- The sales of a drawer's session, and tabs of an earlier one.
use antd_platform.Prelude.{
  ℕ, ◌<◌, ◌≡◌, refl, ap, ◌∙◌, arith, true, Bool-cases, List, [], ◌∷◌, Text, text_eq, any, All, inl,
  inr,
}
use antd_platform.Cart.Delta.{DeltaItem}
use antd_platform.Register.{LocalOrder, Register}
use antd_platform.Register.Orders.{update_at, overwrite, save_order}
use antd_platform.Register.Tabs.{TabPayment, settle_tab, queue_delta}
use antd_platform.Register.Drawer.{placed_since, sales_since, sums}

-- The order was made before the moment.
abbrev pub IsEarlier : ℕ → Text → List LocalOrder → Type 0
IsEarlier since id = All (λ (o : LocalOrder). text_eq o.id id ≡ true → o.created_at < since)

overwrite-uncounted :
    (since : ℕ) (order : LocalOrder) (orders : List LocalOrder)
    → IsEarlier since order.id orders
    → placed_since since (update_at order.id (overwrite order) orders) ≡ placed_since since orders
unfolding placed_since overwrite
overwrite-uncounted since order [] early = refl
overwrite-uncounted since order (o ∷ os) (first, early) =
    let rest = overwrite-uncounted since order os early in
    elim (Bool-cases (text_eq o.id order.id)) [
      | inl t ↦ ground (arith, first t, rest)
      | inr f ↦ ground (arith, rest)
    ]

save_order-uncounted :
    (since : ℕ) (order : LocalOrder) (orders : List LocalOrder)
    → any (λ (o : LocalOrder). text_eq o.id order.id) orders ≡ true
    → IsEarlier since order.id orders
    → placed_since since (save_order order orders) ≡ placed_since since orders
unfolding save_order
save_order-uncounted since order orders known early =
    rw known (overwrite-uncounted since order orders early)

queue_delta-orders :
    (now : ℕ) (m id : Text) (delta : List DeltaItem) (r : Register)
    → (queue_delta now m id delta r).orders ≡ r.orders
unfolding queue_delta
queue_delta-orders now m id [] r = refl
queue_delta-orders now m id (i ∷ is) r = refl

-- A tab that the register had before a session of the drawer was opened, and that is settled in the
-- session, counts as no sale of the session: cash that it brings is not in the expected amount.
pub settle_tab-uncounted :
    (now : ℕ) (m m' : Text) (merged : LocalOrder) (delta : List DeltaItem) (payment : TabPayment)
    (r : Register) (since : ℕ)
    → any (λ (o : LocalOrder). text_eq o.id merged.id) r.orders ≡ true
    → IsEarlier since merged.id r.orders
    → sales_since since (settle_tab now m m' merged delta payment r).orders
      ≡ sales_since since r.orders
unfolding settle_tab sales_since
settle_tab-uncounted now m m' merged delta payment r since known early = ap sums (
    ap (placed_since since) (queue_delta-orders now m merged.id delta _)
    ∙ save_order-uncounted since _ r.orders known early)

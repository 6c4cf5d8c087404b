-- ===== src/Status/Lifecycle.antt =====
-- The graph of the legal transitions: how far an order can go.
use antd_platform.Prelude.{ℕ, zero, suc, ◌+◌, ◌≤◌, ◌<◌, ◌≡◌, ◌≢◌, true, false, arith, ◌↔◌}
use antd_platform.Status.{
  OrderStatus, pending, confirmed, preparing, ready, completed, cancelled, refunded,
  can_transition_order_status,
}

-- How far along its life an order is.
abbrev pub progress : OrderStatus → ℕ
progress pending = 0
progress confirmed = 1
progress preparing = 2
progress ready = 3
progress completed = 4
progress cancelled = 5
progress refunded = 5

pub progress-transition :
    (s t : OrderStatus) → can_transition_order_status s t ≡ true → progress s < progress t
unfolding can_transition_order_status
progress-transition s t h = ground arith

-- A chain of n legal transitions.
pub data Chain : ℕ → OrderStatus → OrderStatus → Type 0 where
  here : {s : OrderStatus} → Chain zero s s
  next :
      {n : ℕ} {s t u : OrderStatus}
      → can_transition_order_status s t ≡ true
      → Chain n t u
      → Chain (suc n) s u

Chain-progress : {n : ℕ} {s t : OrderStatus} → Chain n s t → n + progress s ≤ progress t
Chain-progress here = omega arith
Chain-progress (next {s = s} {t = t} h c) =
    omega (arith, progress-transition s t h, Chain-progress c)

progress-le : (s : OrderStatus) → progress s ≤ 5
progress-le s = ground arith

-- Legal transitions never lead back: a chain of at least one transition ends in another status, and
-- no such chain is longer than five transitions.
pub Chain_bounded : {n : ℕ} {s t : OrderStatus} → Chain (suc n) s t → (suc n ≤ 5) × (s ≢ t)
Chain_bounded {t = t} c =
    (omega (arith, Chain-progress c, progress-le t), λ e. ground (arith, Chain-progress c))

-- `cancelled` and `refunded` are exactly the statuses with no legal transition out of them.
pub terminal_iff :
    (s : OrderStatus)
    → ((t : OrderStatus) → can_transition_order_status s t ≡ false) ↔ (progress s ≡ 5)
unfolding can_transition_order_status
terminal_iff s = (
  λ h. ground (arith, h confirmed, h preparing, h ready, h completed, h refunded),
  λ e t. ground arith,
)

-- ===== src/Status.antt =====
-- apps/backend/src/common/constants/order-status.ts: the order statuses and the table of their legal
-- transitions, shared by the dashboard's endpoint and by the marketplaces.
pub mod Lifecycle
pub mod External
mod Examples
use antd_platform.Prelude.{Bool, true, false, List, [], ◌∷◌, Text, codes, any}

pub data OrderStatus : Type 0 where
  pending confirmed preparing ready completed cancelled refunded : OrderStatus

pub OrderStatus-discrete : Discrete OrderStatus
OrderStatus-discrete = hlevel

-- The string that stands for a status.
unfoldable pub name : OrderStatus → Text
name pending = codes "pending"
name confirmed = codes "confirmed"
name preparing = codes "preparing"
name ready = codes "ready"
name completed = codes "completed"
name cancelled = codes "cancelled"
name refunded = codes "refunded"

-- `===` on two statuses: they are the same string.
abbrev pub same_status : OrderStatus → OrderStatus → Bool
same_status pending pending = true
same_status confirmed confirmed = true
same_status preparing preparing = true
same_status ready ready = true
same_status completed completed = true
same_status cancelled cancelled = true
same_status refunded refunded = true
same_status _ _ = false

abbrev pub order_statuses : List OrderStatus
order_statuses = pending ∷ confirmed ∷ preparing ∷ ready ∷ completed ∷ cancelled ∷ refunded ∷ []

unfoldable pub order_status_transitions : OrderStatus → List OrderStatus
order_status_transitions pending = confirmed ∷ preparing ∷ cancelled ∷ []
order_status_transitions confirmed = preparing ∷ cancelled ∷ refunded ∷ []
order_status_transitions preparing = ready ∷ cancelled ∷ []
order_status_transitions ready = completed ∷ cancelled ∷ []
order_status_transitions completed = refunded ∷ []
order_status_transitions cancelled = []
order_status_transitions refunded = []

abbrev pub manual_order_statuses : List OrderStatus
manual_order_statuses = pending ∷ confirmed ∷ preparing ∷ ready ∷ completed ∷ cancelled ∷ []

unfoldable pub includes : List OrderStatus → OrderStatus → Bool
includes ss s = any (λ t. same_status t s) ss

unfoldable pub can_transition_order_status : OrderStatus → OrderStatus → Bool
unfolding order_status_transitions includes
can_transition_order_status from to = includes (order_status_transitions from) to

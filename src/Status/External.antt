-- ===== src/Status/External.antt =====
-- apps/backend/src/aggregator/core/services/order-status-transition.service.ts: the service that the
-- marketplaces use, over the shared table.
use antd_platform.Prelude.{
  Option, none, some, List, [], ◌∷◌, ◌≡◌, refl, Text, codes, text_eq, Result, Bool, if◌then◌else◌,
  get_or, require,
}
use antd_platform.Strings.{to_lower_case, trim}
use antd_platform.Status.{
  OrderStatus, pending, confirmed, preparing, ready, completed, cancelled, refunded, name,
  can_transition_order_status,
}

abbrev pub can_transition : OrderStatus → OrderStatus → Bool
can_transition from to = can_transition_order_status from to

pub data TransitionError : Type 0 where
  illegal : OrderStatus → OrderStatus → TransitionError

unfoldable pub validate_transition : OrderStatus → OrderStatus → Result TransitionError (Unit {0})
validate_transition from to = require (can_transition from to) (illegal from to)

-- `mapping[key]`.
unfoldable pub lookup_status : List (Text × OrderStatus) → Text → Option OrderStatus
lookup_status [] key = none
lookup_status ((k, s) ∷ rest) key = if text_eq k key then some s else lookup_status rest key

abbrev pub mapping : List (Text × OrderStatus)
mapping =
    (codes "new", pending)
    ∷ (codes "accepted", confirmed)
    ∷ (codes "confirmed", confirmed)
    ∷ (codes "preparing", preparing)
    ∷ (codes "ready", ready)
    ∷ (codes "completed", completed)
    ∷ (codes "canceled", cancelled)
    ∷ (codes "cancelled", cancelled)
    ∷ (codes "refunded", refunded)
    ∷ (codes "picked_up", completed)
    ∷ (codes "delivered", completed)
    ∷ (codes "created", pending)
    ∷ (codes "denied", cancelled)
    ∷ (codes "finished", completed)
    ∷ []

unfoldable pub map_external_status : Text → OrderStatus
unfolding lookup_status to_lower_case trim
map_external_status external_status =
    let normalized = trim (to_lower_case external_status) in
    get_or (lookup_status mapping normalized) pending

-- A marketplace that reports one of our own status names is understood: each name maps to its status.
pub map_external_status-name : (s : OrderStatus) → map_external_status (name s) ≡ s
unfolding map_external_status name text_eq
map_external_status-name pending = refl
map_external_status-name _ = refl

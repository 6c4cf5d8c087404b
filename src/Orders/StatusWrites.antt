-- ===== src/Orders/StatusWrites.antt =====
-- Who may change an order's status: the dashboard (orders.service.ts, updateOrderStatus), the
-- marketplace buttons (aggregator.service.ts, advanceNativeStatus) and the marketplace webhooks
-- (aggregator-webhook.processor.ts, handleStatusChange). Audit entries and realtime events are left
-- out; `org` is the organization that getRequiredOrg resolved. These handlers hold no lock: each is modelled
-- as one step, so nothing comes between its reads (two of them in handleStatusChange, with a request to the
-- marketplace between) and its write.
pub mod Laws
pub mod Runs
use antd_platform.Prelude.{
  Bool, true, false, Option, none, some, List, [], ◌∷◌, Text, text_eq, Result, ok, err, ◌>>=◌, ◌>>◌,
  require, refuse, need, if◌then◌else◌, find, is_some, ◌||◌, get_or,
}
use antd_platform.Status.{
  OrderStatus, cancelled, name, same_status, includes, manual_order_statuses,
  order_status_transitions,
}
use antd_platform.Status.External.{can_transition, map_external_status}
use antd_platform.Database.{Order, Db, find_order, update_order}

pub data StatusError : Type 0 where
  invalid_status : StatusError
  order_not_found : StatusError
  illegal_transition : StatusError

abbrev pub set_status : OrderStatus → Order → Order
set_status s o = record o { status = s }

-- The member of MANUAL_ORDER_STATUSES that the text is, if it is one.
unfoldable pub manual_status : Text → Option OrderStatus
manual_status text = find (λ s. text_eq (name s) text) manual_order_statuses

unfoldable pub update_order_status : Text → Text → Text → Db → Result StatusError Db
update_order_status org id status db = do
  target ← need (manual_status status) invalid_status
  order ← need (find_order org id db) order_not_found
  require (includes (order_status_transitions order.status) target) illegal_transition
  ok (update_order id (set_status target) db)

unfoldable pub update_status_for_aggregator : Text → Text → OrderStatus → Db → Result StatusError Db
update_status_for_aggregator org id new_status db = do
  order ← need (find_order org id db) order_not_found
  (if same_status order.status new_status
      then ok db
      else ok (update_order id (set_status new_status) db))

unfoldable pub advance_native_status : Text → Text → OrderStatus → Db → Result StatusError Db
unfolding update_status_for_aggregator
advance_native_status org id target db = do
  order ← need (find_order org id db) order_not_found
  (if same_status order.status target
      then ok db
      else (require (can_transition order.status target) illegal_transition
          >> update_status_for_aggregator org id target db))

-- What the webhook says and what the marketplace answers: `internal_order` is the imported order, if
-- the event names one; `embedded` and `fetched` are the external status in the payload or in the
-- order that was fetched again.
pub record StatusEvent : Type 0 where
  pub internal_order : Option Text
  pub is_cancel : Bool
  pub embedded : Option Text
  pub has_order_ref : Bool
  pub fetched : Option Text

unfoldable pub target_status : StatusEvent → Option OrderStatus
target_status e = elim e.embedded [
  | some external ↦ some (map_external_status external)
  | none ↦
      if e.has_order_ref
      then elim e.fetched [ some external ↦ some (map_external_status external) | none ↦ none ]
      else none
]

-- The row is read by its id alone.
unfoldable pub find_by_id : Text → Db → Option Order
find_by_id id db = find (λ o. text_eq o.id id) db.orders

unfoldable pub move_to : Text → Text → OrderStatus → OrderStatus → Db → Result StatusError Db
unfolding update_status_for_aggregator
move_to org id current target db =
    if same_status current target
    then ok db
    else (if can_transition current target
        then update_status_for_aggregator org id target db
        else ok db)

unfoldable pub wanted : StatusEvent → Option OrderStatus
unfolding target_status
wanted e = if e.is_cancel then some cancelled else target_status e

unfoldable pub change_order :
    Text → Text → Option Order → Option OrderStatus → Db → Result StatusError Db
change_order org id none target db = ok db
change_order org id (some order) none db = ok db
change_order org id (some order) (some target) db = move_to org id order.status target db

unfoldable pub handle_status_change : Text → StatusEvent → Db → Result StatusError Db
unfolding change_order
handle_status_change org e db = elim e.internal_order [
  | none ↦ ok db
  | some id ↦ change_order org id (find_by_id id db) (wanted e) db
]

-- ===== src/Orders/Fire.antt =====
-- orders.service.ts, `fireCourse`: one course of an order goes to the kitchen.
pub mod Laws
use antd_platform.Prelude.{
  ℕ, Bool, true, false, ◌&&◌, ◌||◌, not, Option, none, some, List, [], ◌∷◌, map, Text, Result, ok,
  err, ◌>>=◌, ◌>>◌, refuse, require, need, if◌then◌else◌, is_some, any, ◌==◌,
}
use antd_platform.Status.{pending, confirmed, same_status}
use antd_platform.Database.{Order, OrderItem, Db, find_order, update_order}
use antd_platform.Pricing.Discounts.{given}
use antd_platform.Shop.{OrderError, order_not_found, already_paid, not_editable}
use antd_platform.Orders.Edit.{live_order, already_done, add_claim}

abbrev pub is_course : ℕ → Option ℕ → Bool
is_course course none = false
is_course course (some c) = c == course

-- An item of the course that was not fired yet.
unfoldable pub is_due : ℕ → OrderItem → Bool
is_due course i = is_course course i.course && not (is_some i.fired_at)

unfoldable pub stamp : ℕ → ℕ → OrderItem → OrderItem
unfolding is_due
stamp now course i = if is_due course i then record i { fired_at = some now } else i

unfoldable pub stamp_order : ℕ → ℕ → Order → Order
unfolding stamp
stamp_order now course o = record o { items = map (stamp now course) o.items }

unfoldable pub fire_items : ℕ → Text → Text → ℕ → Option Text → Db → Result OrderError (Db × Bool)
fire_items now org id course mutation db = do
  order ← live_order org id db
  refuse (is_some order.paid_at) already_paid
  require (same_status order.status pending || same_status order.status confirmed) not_editable
  ok (
    update_order id (stamp_order now course) (add_claim org mutation db),
    any (is_due course) order.items,
  )

-- The flag says that something was fired, and so that a kitchen ticket is printed. A replay answers the
-- order, if it is there.
unfoldable pub fire_course : ℕ → Text → Text → ℕ → Option Text → Db → Result OrderError (Db × Bool)
fire_course now org id course client_mutation_id db =
    let mutation = given client_mutation_id in
    if already_done org mutation db
    then (need (find_order org id db) order_not_found >>= λ order. ok (db, false))
    else fire_items now org id course mutation db

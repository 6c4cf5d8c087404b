-- ===== src/Register/Tabs.antt =====
-- apps/pos/src/db/tabsRepo.ts: the life of an open tab. Each operation writes the local order and
-- queues the mutation that tells the server. The clock and the new mutation ids are arguments.
use antd_platform.Prelude.{
  ℕ, Bool, ◌&&◌, not, Option, none, some, List, [], ◌∷◌, map, Text, is_some, if◌then◌else◌, get_or,
  ◌==◌, ltb,
}
use antd_platform.Prelude.Int.{ℤ}
use antd_platform.Cart.Delta.{DeltaItem}
use antd_platform.Orders.Fire.{is_course}
use antd_platform.Register.{
  LocalOrderItem, LocalOrder, Register, open_tab, pending_sync, Work, create, append, fire, settle,
}
use antd_platform.Register.Orders.{save_order}
use antd_platform.Register.Outbox.{enqueue}

abbrev pub queue : ℕ → Text → Text → Work → Register → Register
queue now id order_id work r = record r { outbox = enqueue now id order_id work r.outbox }

abbrev pub save : LocalOrder → Register → Register
save order r = record r { orders = save_order order r.orders }

unfoldable pub as_tab : ℕ → LocalOrder → LocalOrder
as_tab now order = record order {
  status = open_tab;
  payment_method = none;
  tab_opened_at = some (get_or order.tab_opened_at now);
}

unfoldable pub open_new_tab : ℕ → Text → LocalOrder → Register → Register
unfolding as_tab
open_new_tab now m order r = queue now m order.id create (save (as_tab now order) r)

-- The append of the last items, if there are any.
unfoldable pub queue_delta : ℕ → Text → Text → List DeltaItem → Register → Register
queue_delta now m id [] r = r
queue_delta now m id (i ∷ is) r = queue now m id (append (i ∷ is)) r

unfoldable pub append_to_tab : ℕ → Text → LocalOrder → List DeltaItem → Register → Register
unfolding queue_delta
append_to_tab now m merged delta r =
    queue_delta now m merged.id delta (save (record merged { status = open_tab }) r)

pub record TabPayment : Type 0 where
  pub payment_method : Text
  pub tendered_amount : Option ℕ
  pub change_amount : Option ℕ
  pub tip_amount : Option ℤ

-- The last items go before the tender.
unfoldable pub settle_tab :
    ℕ → Text → Text → LocalOrder → List DeltaItem → TabPayment → Register → Register
unfolding queue_delta
settle_tab now m m' merged delta payment r =
    let settled = record merged {
      status = pending_sync;
      payment_method = some payment.payment_method;
      tendered_amount = payment.tendered_amount;
      change_amount = payment.change_amount;
    } in
    queue now m' merged.id (settle payment.payment_method payment.tip_amount)
      (queue_delta now m merged.id delta (save settled r))

unfoldable pub is_unfired : ℕ → LocalOrderItem → Bool
is_unfired course i = is_course course i.course && not (is_some i.fired_at)

unfoldable pub stamp_item : ℕ → ℕ → LocalOrderItem → LocalOrderItem
unfolding is_unfired
stamp_item now course i = if is_unfired course i then record i { fired_at = some now } else i

unfoldable pub fire_tab_course : ℕ → Text → LocalOrder → ℕ → Register → Register
unfolding stamp_item
fire_tab_course now m order course r =
    queue now m order.id (fire course)
      (save (record order { items = map (stamp_item now course) order.items }) r)

-- The courses are 1 to 3 in the source's type; course 0 counts as none. A set, sorted.
unfoldable pub insert_course : ℕ → List ℕ → List ℕ
insert_course c [] = c ∷ []
insert_course c (d ∷ ds) =
    let rest = insert_course c ds in
    if c == d then d ∷ ds else if ltb c d then c ∷ d ∷ ds else d ∷ rest

unfoldable pub unfired_courses : List LocalOrderItem → List ℕ
unfolding insert_course
unfired_courses [] = []
unfired_courses (i ∷ is) = elim i.course [
  | none ↦ unfired_courses is
  | some c ↦
      let rest = unfired_courses is in
      if not (c == 0) && not (is_some i.fired_at) then insert_course c rest else rest
]

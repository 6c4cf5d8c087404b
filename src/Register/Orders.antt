-- ===== src/Register/Orders.antt =====
-- apps/pos/src/db/ordersRepo.ts: the table of local orders.
use antd_platform.Prelude.{
  ℕ, Bool, true, false, ◌&&◌, Option, none, some, List, [], ◌∷◌, ◌++◌, Text, text_eq, find, filter,
  not, any, length, if◌then◌else◌,
}
use antd_platform.Register.{
  LocalOrder, LocalOrderStatus, held, open_tab, pending_sync, synced, failed, incoming,
}

unfoldable pub get_order_by_id : Text → List LocalOrder → Option LocalOrder
get_order_by_id id = find (λ o. text_eq o.id id)

-- `UPDATE orders SET … WHERE id = ?`.
abbrev pub update_at : Text → (LocalOrder → LocalOrder) → List LocalOrder → List LocalOrder
update_at id f [] = []
update_at id f (o ∷ os) = (if text_eq o.id id then f o else o) ∷ update_at id f os

-- What `ON CONFLICT(id) DO UPDATE` leaves: the server's ids and the times of creation and sync stay.
unfoldable pub overwrite : LocalOrder → LocalOrder → LocalOrder
overwrite order old = record order {
  server_id = old.server_id;
  ticket_number = old.ticket_number;
  created_at = old.created_at;
  synced_at = old.synced_at;
}

unfoldable pub save_order : LocalOrder → List LocalOrder → List LocalOrder
unfolding overwrite
save_order order orders =
    if any (λ o. text_eq o.id order.id) orders
    then update_at order.id (overwrite order) orders
    else orders ++ order ∷ []

unfoldable pub delete_order : Text → List LocalOrder → List LocalOrder
delete_order id = filter (λ o. not (text_eq o.id id))

unfoldable pub accept : ℕ → Text → Option ℕ → LocalOrder → LocalOrder
accept now server_id ticket o = record o {
  status = synced;
  server_id = some server_id;
  ticket_number = ticket;
  error_message = none;
  synced_at = some now;
}

unfoldable pub mark_synced : ℕ → Text → Text → Option ℕ → List LocalOrder → List LocalOrder
unfolding accept
mark_synced now id server_id ticket = update_at id (accept now server_id ticket)

unfoldable pub reject : Text → LocalOrder → LocalOrder
reject message o = record o { status = failed; error_message = some message }

unfoldable pub mark_order_failed : Text → Text → List LocalOrder → List LocalOrder
unfolding reject
mark_order_failed id message = update_at id (reject message)

-- An open tab stays open when its create lands.
unfoldable pub attach : ℕ → Text → Option ℕ → LocalOrder → LocalOrder
attach now server_id ticket o = record o {
  server_id = some server_id;
  ticket_number = ticket;
  error_message = none;
  synced_at = some now;
}

unfoldable pub attach_server_id : ℕ → Text → Text → Option ℕ → List LocalOrder → List LocalOrder
unfolding attach
attach_server_id now id server_id ticket = update_at id (attach now server_id ticket)

unfoldable pub requeue : Text → List LocalOrder → List LocalOrder
requeue id = update_at id (λ o. record o { status = pending_sync; error_message = none })

unfoldable pub same_local_status : LocalOrderStatus → LocalOrderStatus → Bool
same_local_status held held = true
same_local_status open_tab open_tab = true
same_local_status pending_sync pending_sync = true
same_local_status synced synced = true
same_local_status failed failed = true
same_local_status incoming incoming = true
same_local_status a b = false

unfoldable pub count_orders : LocalOrderStatus → List LocalOrder → ℕ
unfolding same_local_status
count_orders status orders = length (filter (λ o. same_local_status o.status status) orders)

unfoldable pub has_table : Text → Option Text → Bool
has_table table none = false
has_table table (some t) = text_eq t table

unfoldable pub find_open_tab_for_table : Text → List LocalOrder → Option LocalOrder
unfolding same_local_status has_table
find_open_tab_for_table table =
    find (λ o. same_local_status o.status open_tab && has_table table o.table_id)

-- ===== src/Register/Sync/Tab.antt =====
-- What the server is sent for a tab that was opened and added to while the register was offline.
use antd_platform.Prelude.{
  ◌+◌, ◌*◌, sum_of, if◌then◌else◌, ℕ, ◌≤◌, ◌≡◌, refl, ap, ◌∙◌, arith, Option, none, some, List, [],
  ◌∷◌, map, Text, true, false, text_eq, text_eq_refl,
}
use antd_platform.Cart.Delta.{DeltaItem}
use antd_platform.Pricing.Cart.{LineDto}
use antd_platform.Register.{
  LocalOrder, LocalOrderItem, OrderMutation, Register, Work, create, append, open_tab,
}
use antd_platform.Register.Orders.{
  get_order_by_id, save_order, overwrite, attach, attach_server_id, same_local_status,
}
use antd_platform.Register.Outbox.{list_pending, insert_row, enqueue, remove}
use antd_platform.Register.Tabs.{open_new_tab, append_to_tab, as_tab, queue_delta}
use antd_platform.Register.Wire.{
  Request, create_pos_order, append_order_items, accepted, answered, Server, call, call_on, send,
  heard,
}
use antd_platform.Register.Sync.{
  Device, went, next, dispatch, dispatch_work, dispatch_to, with_server_id, require_server_id,
  landed, record_create, end_turn, turn, push_all, push_mutations, create_request, item_line,
}
use antd_platform.Register.Sync.Frame.{attempt_known, turn_free, push_all_next}

abbrev row : ℕ → Text → Text → Work → OrderMutation
row now id order_id work = record {
  id = id;
  order_id = order_id;
  work = work;
  created_at = now;
  attempts = 0;
  last_error = none;
}

-- A register with one tab, opened, then added to.
abbrev pub tab_register :
    ℕ → ℕ → Text → Text → LocalOrder → LocalOrder → DeltaItem → List DeltaItem → Register
tab_register t t' m m' tab merged i is =
    append_to_tab t' m' (record merged { id = tab.id }) (i ∷ is)
      (open_new_tab t m tab (record { orders = []; outbox = [] }))

-- The tab's row: the merged order over the one that was opened.
unfoldable pub tab_row : ℕ → LocalOrder → LocalOrder → LocalOrder
tab_row t tab merged = overwrite (record merged { id = tab.id; status = open_tab }) (as_tab t tab)

tab_register_is :
    (t t' : ℕ) (m m' : Text) (tab merged : LocalOrder) (i : DeltaItem) (is : List DeltaItem)
    → tab_register t t' m m' tab merged i is ≡ record {
      orders = tab_row t tab merged ∷ [];
      outbox = row t m tab.id create ∷ row t' m' tab.id (append (i ∷ is)) ∷ [];
    }
unfolding append_to_tab open_new_tab tab_row as_tab queue_delta save_order enqueue
tab_register_is t t' m m' tab merged i is = rw (text_eq_refl tab.id)

module _ {S : Type 0} (server : Server S) (now : ℕ) (location : Text) (order : LocalOrder)
    (m m' : Text) (items : List DeltaItem) (t t' : ℕ) (s : S) (c : ℕ) (cs : Text)
    (ticket : Option ℕ) (still_open : order.status ≡ open_tab) (apart : text_eq m' m ≡ false)
    (taken : (server.handle (create_pos_order (create_request location order)) s).1
      ≡ accepted (c ∷ cs) ticket) where
  first : OrderMutation
  first = row t m order.id create

  second : OrderMutation
  second = row t' m' order.id (append items)

  offline : Device S
  offline = record {
    register = record { orders = order ∷ []; outbox = first ∷ second ∷ [] };
    wire = record { server = s; fates = answered ∷ answered ∷ []; handled = [] };
    delivered = [];
  }

  sent_create : Request
  sent_create = create_pos_order (create_request location order)

  -- The device after the create.
  created : Device S
  created = record {
    register = record { orders = attach now (c ∷ cs) ticket order ∷ []; outbox = second ∷ [] };
    wire = record {
      server = (server.handle sent_create s).0;
      fates = answered ∷ [];
      handled = sent_create ∷ [];
    };
    delivered = first ∷ [];
  }

  first_found : get_order_by_id order.id (order ∷ []) ≡ some order
  unfolding get_order_by_id
  first_found = rw (text_eq_refl order.id)

  attached :
      record_create now order (c ∷ cs) ticket (order ∷ []) ≡ attach now (c ∷ cs) ticket order ∷ []
  unfolding record_create attach_server_id
  attached =
      let tab : same_local_status order.status open_tab ≡ true =
        ap (λ q. same_local_status q open_tab) still_open ∙ (unfold same_local_status in refl) in
      rw (tab, text_eq_refl order.id)

  create_sent :
      dispatch server now location first order offline.wire offline.register.orders
      ≡ went created.wire created.register.orders
  unfolding dispatch dispatch_work call call_on send landed heard first offline created sent_create
  create_sent = rw taken (ap (went created.wire) attached)

  turn_one : turn server now location [] first offline ≡ next false created
  unfolding first offline created second
  turn_one =
      turn_free server now location first offline [] refl refl
      ∙ attempt_known server now location first offline order first_found
      ∙ ap (λ o. end_turn first o offline) create_sent
      ∙ (unfold end_turn remove in rw (text_eq_refl m, apart))

  second_found :
      get_order_by_id order.id created.register.orders ≡ some (attach now (c ∷ cs) ticket order)
  unfolding get_order_by_id created attach
  second_found = rw (text_eq_refl order.id)

  -- However the append is answered, it was sent to the order's new id.
  sent_append : Request
  sent_append = append_order_items (c ∷ cs) m' items

  module _ (i : Text) (ticket' : Option ℕ)
      (appended : (server.handle sent_append (server.handle sent_create s).0).1
        ≡ accepted i ticket') where
    done : Device S
    done = record {
      register = record { orders = created.register.orders; outbox = [] };
      wire = record {
        server = (server.handle sent_append (server.handle sent_create s).0).0;
        fates = [];
        handled = sent_create ∷ sent_append ∷ [];
      };
      delivered = first ∷ second ∷ [];
    }

    append_sent :
        dispatch server now location second
          (attach now (c ∷ cs) ticket order)
          created.wire
          created.register.orders
        ≡ went done.wire created.register.orders
    unfolding dispatch dispatch_work with_server_id require_server_id dispatch_to call call_on send
        landed heard second created done sent_append attach
    append_sent = rw appended

    turn_two : turn server now location [] second created ≡ next false done
    unfolding second created done
    turn_two =
        turn_free server now location second created [] refl refl
        ∙ attempt_known server now location second created (attach now (c ∷ cs) ticket order)
            second_found
        ∙ ap (λ o. end_turn second o created) append_sent
        ∙ (unfold end_turn remove first in rw (text_eq_refl m'))

    both_sent :
        t ≤ t'
        → (push_mutations server now location offline).0.wire.handled
          ≡ sent_create ∷ sent_append ∷ []
    unfolding push_mutations
    both_sent early =
        let rows : list_pending offline.register.outbox ≡ first ∷ second ∷ [] =
          unfold list_pending insert_row offline first second in (ground arith) in
        let run : push_all server now location [] (first ∷ second ∷ []) offline ≡ (done, none) =
          push_all_next server now location first offline [] (second ∷ []) created false turn_one
          ∙ push_all_next server now location second created [] [] done false turn_two
          ∙ unfold push_all in refl in
        rw (rows, run) (unfold done in refl)

-- The register of a tab, before its first run.
abbrev pub online_device : {S : Type 0} → Register → S → Device S
online_device register s = record {
  register = register;
  wire = record { server = s; fates = answered ∷ answered ∷ []; handled = [] };
  delivered = [];
}

-- How many units of a product are ordered.
abbrev pub line_units : Text → List LineDto → ℕ
line_units p = sum_of (λ (l : LineDto). if text_eq l.menu_item_id p then l.quantity else 0)

abbrev pub local_units : Text → List LocalOrderItem → ℕ
local_units p = sum_of (λ (l : LocalOrderItem). if text_eq l.menu_item_id p then l.quantity else 0)

abbrev pub delta_units : Text → List DeltaItem → ℕ
delta_units p = sum_of (λ (l : DeltaItem). if text_eq l.menu_item_id p then l.quantity else 0)

abbrev pub request_units : Text → Request → ℕ
request_units p (create_pos_order dto) = line_units p dto.items
request_units p (append_order_items id m items) = delta_units p items
request_units p r = 0

item_line-units :
    (p : Text) (items : List LocalOrderItem)
    → line_units p (map item_line items) ≡ local_units p items
unfolding item_line
item_line-units p [] = refl
item_line-units p (i ∷ items) = omega (arith, item_line-units p items)

-- The items that are added to a tab before its create was sent go to the server twice. If the merged order
-- has, of each product, what the tab had and what was added, the server is sent, of each product, what the
-- tab had and twice what was added: the create is made of the merged order, since it is read when it is sent,
-- and the append carries the added items once more. The server accepts both, the append is queued no earlier
-- than the create, and the two mutations have different ids.
pub offline_tab-sent_twice :
    {S : Type 0} (server : Server S) (now t t' : ℕ) (location m m' : Text) (tab merged : LocalOrder)
    (i : DeltaItem) (is : List DeltaItem) (s : S) (c : ℕ) (cs answered_id : Text)
    (ticket ticket' : Option ℕ)
    → t ≤ t'
    → text_eq m' m ≡ false
    → ((p : Text) → local_units p merged.items ≡ local_units p tab.items + delta_units p (i ∷ is))
    → let create_it = create_pos_order (create_request location (tab_row t tab merged)) in
      let append_it = append_order_items (c ∷ cs) m' (i ∷ is) in
      let register = tab_register t t' m m' tab merged i is in
      (server.handle create_it s).1 ≡ accepted (c ∷ cs) ticket
      → (server.handle append_it (server.handle create_it s).0).1 ≡ accepted answered_id ticket'
      → (p : Text)
      → sum_of
          (request_units p)
          (push_mutations server now location (online_device register s)).0.wire.handled
        ≡ local_units p tab.items + 2 * delta_units p (i ∷ is)
offline_tab-sent_twice server now t t' location m m' tab merged i is s c cs answered_id ticket
      ticket' early apart grown taken appended p =
    let open_row : (tab_row t tab merged).status ≡ open_tab = unfold tab_row overwrite in refl in
    let create_it = create_pos_order (create_request location (tab_row t tab merged)) in
    let append_it = append_order_items (c ∷ cs) m' (i ∷ is) in
    let register = tab_register t t' m m' tab merged i is in
    let sent : (push_mutations server now location (online_device register s)).0.wire.handled
        ≡ create_it ∷ append_it ∷ [] =
      rw (tab_register_is t t' m m' tab merged i is) (
        unfold sent_create sent_append offline first second tab_row overwrite in
        both_sent server now location (tab_row t tab merged) m m' (i ∷ is) t t' s c cs ticket
          open_row apart taken answered_id ticket' appended early) in
    let lines : line_units p (create_request location (tab_row t tab merged)).items
        ≡ local_units p merged.items =
      unfold create_request tab_row overwrite in item_line-units p merged.items in
    rw sent (omega (arith, lines, grown p))

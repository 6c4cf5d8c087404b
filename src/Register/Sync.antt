-- ===== src/Register/Sync.antt =====
-- apps/pos/src/sync/syncEngine.ts, `pushMutations`: the outbox is drained in the order of its rows. The
-- clock of a run is an argument. The counts that listeners are told are left out: they are read off the
-- outbox.
pub mod Pending
pub mod Frame
pub mod History
pub mod Turns
pub mod Fifo
pub mod Addressed
pub mod Drain
pub mod Drained
pub mod Lost
pub mod Tab
use antd_platform.Prelude.{
  ℕ, Bool, true, false, Option, none, some, List, [], ◌∷◌, ◌++◌, map, Text, text_eq, codes, Result,
  ok, err, any, is_some, if◌then◌else◌, ltb,
}
use antd_platform.Prelude.Int.{ℤ, pos}
use antd_platform.Cart.Delta.{DeltaItem}
use antd_platform.Pricing.Cart.{LineDto}
use antd_platform.Pricing.Discounts.{given}
use antd_platform.Orders.Create.{PosOrderDto}
use antd_platform.Register.{
  LocalOrderStatus, LocalOrderItem, LocalOrder, OrderMutation, Register, Work, create, append, fire,
  settle, open_tab,
}
use antd_platform.Register.Orders.{
  get_order_by_id, mark_synced, attach_server_id, mark_order_failed, same_local_status,
}
use antd_platform.Register.Outbox.{list_pending, remove, mark_failed, bump_attempts}
use antd_platform.Register.Wire.{
  Request, CallError, network_error, request_error, Server, Wire, Reply, reply, call,
  create_pos_order, append_order_items, fire_course, pay_order,
}

-- `n || undefined` of an amount.
abbrev pub positive : ℕ → Option ℤ
positive n = if ltb 0 n then some (pos n) else none

unfoldable pub item_line : LocalOrderItem → LineDto
item_line i = record {
  menu_item_id = i.menu_item_id;
  quantity = i.quantity;
  option_ids = map (λ m. m.option_id) i.modifiers;
  notes = i.notes;
  course = i.course;
  price_override = i.price_override;
  price_override_reason = i.price_override_reason;
}

-- The order as it is when it is sent.
unfoldable pub create_request : Text → LocalOrder → PosOrderDto
unfolding item_line
create_request location_id order = record {
  location_id = location_id;
  customer_id = order.customer_id;
  customer_name = given (some order.customer_name);
  customer_phone = given (some order.customer_phone);
  table_id = order.table_id;
  order_type = some order.order_type;
  special_instructions = order.special_instructions;
  payment_method = order.payment_method;
  tip_amount = positive order.tip_amount;
  apply_service_charge = ltb 0 order.service_charge_amount;
  redeem_points = positive order.loyalty_points_redeemed;
  discount_id = order.discount_id;
  promo_code = none;
  client_order_id = some order.id;
  by_course = order.by_course;
  items = map item_line order.items;
}

-- `delivered` are the mutations that the server has accepted, in this order: it is kept for what is
-- said of the runs.
pub record Device (S : Type 0) : Type 0 where
  pub register : Register
  pub wire : Wire S
  pub delivered : List OrderMutation

-- A call that went through, with the local orders after it, or the exception.
pub data Outcome (S : Type 0) : Type 0 where
  went : Wire S → List LocalOrder → Outcome S
  failed_with : Wire S → CallError → Outcome S

-- The create landed: its id is recorded, and only an open tab stays as it is.
unfoldable pub record_create : ℕ → LocalOrder → Text → Option ℕ → List LocalOrder → List LocalOrder
record_create now order server_id ticket orders =
    if same_local_status order.status open_tab
    then attach_server_id now order.id server_id ticket orders
    else mark_synced now order.id server_id ticket orders

unfoldable pub settled : ℕ → LocalOrder → Text → List LocalOrder → List LocalOrder
settled now order server_id = mark_synced now order.id server_id order.ticket_number

-- `requireServerId`: a gap counts as a transport failure.
unfoldable pub require_server_id : LocalOrder → Result CallError Text
require_server_id order = elim (given order.server_id) [
  | none ↦ err (network_error (codes "its create has not landed"))
  | some id ↦ ok id
]

-- An append or a fire writes nothing locally.
abbrev pub unchanged : Text → Option ℕ → List LocalOrder → List LocalOrder
unchanged id ticket orders = orders

module _ {S : Type 0} where
  -- What a reply does to the local orders.
  unfoldable pub landed :
      Reply S → (Text → Option ℕ → List LocalOrder → List LocalOrder) → List LocalOrder → Outcome S
  landed (reply w (ok (id, ticket))) write orders = went w (write id ticket orders)
  landed (reply w (err e)) write orders = failed_with w e

module _ {S : Type 0} (server : Server S) where
  -- The mutations that address the order by the server's id.
  unfoldable pub dispatch_to :
      ℕ → Text → OrderMutation → LocalOrder → Work → Wire S → List LocalOrder → Outcome S
  unfolding landed
  dispatch_to now server_id m order create w orders = went w orders
  dispatch_to now server_id m order (append items) w orders =
      landed (call server (append_order_items server_id m.id items) w) unchanged orders
  dispatch_to now server_id m order (fire course) w orders =
      landed (call server (fire_course server_id course m.id) w) unchanged orders
  dispatch_to now server_id m order (settle method tip) w orders =
      landed (call server (pay_order server_id method tip) w)
        (λ id ticket. settled now order server_id) orders

  unfoldable pub with_server_id :
      ℕ → Result CallError Text → OrderMutation → LocalOrder → Wire S → List LocalOrder → Outcome S
  unfolding dispatch_to
  with_server_id now (err e) m order w orders = failed_with w e
  with_server_id now (ok id) m order w orders = dispatch_to now id m order m.work w orders

  unfoldable pub dispatch_work :
      ℕ → Text → OrderMutation → LocalOrder → Work → Wire S → List LocalOrder → Outcome S
  unfolding landed record_create with_server_id require_server_id
  dispatch_work now location m order create w orders =
      landed (call server (create_pos_order (create_request location order)) w)
        (record_create now order) orders
  dispatch_work now location m order work w orders =
      with_server_id now (require_server_id order) m order w orders

  unfoldable pub dispatch :
      ℕ → Text → OrderMutation → LocalOrder → Wire S → List LocalOrder → Outcome S
  unfolding dispatch_work
  dispatch now location m order w orders = dispatch_work now location m order m.work w orders

-- One turn of the loop: the run goes on, with an order blocked perhaps, or it stops with the exception.
pub data Turn (S : Type 0) : Type 0 where
  next : Bool → Device S → Turn S
  stop : Device S → CallError → Turn S

abbrev pub parks : CallError → Option Text
parks (network_error message) = none
parks (request_error status message) = if ltb status 500 then some message else none

module _ {S : Type 0} where
  unfoldable pub fail_turn : Option Text → CallError → OrderMutation → Wire S → Device S → Turn S
  fail_turn (some message) e m w d = next true (record d {
    wire = w;
    register = record {
      orders = mark_order_failed m.order_id message d.register.orders;
      outbox = mark_failed m.id message d.register.outbox;
    };
  })
  fail_turn none e m w d =
      stop
        (record d {
          wire = w;
          register = record {
            orders = d.register.orders;
            outbox = bump_attempts m.id d.register.outbox;
          };
        })
        e

  unfoldable pub end_turn : OrderMutation → Outcome S → Device S → Turn S
  unfolding fail_turn
  end_turn m (went w orders) d = next false (record {
    wire = w;
    register = record { orders = orders; outbox = remove m.id d.register.outbox };
    delivered = d.delivered ++ m ∷ [];
  })
  end_turn m (failed_with w e) d = fail_turn (parks e) e m w d

  abbrev pub discard : OrderMutation → Device S → Device S
  discard m d = record d {
    register = record { orders = d.register.orders; outbox = remove m.id d.register.outbox };
  }

module _ {S : Type 0} (server : Server S) where
  -- A mutation that no error and no earlier mutation of its order holds up.
  unfoldable pub attempt : ℕ → Text → OrderMutation → Device S → Turn S
  unfolding end_turn
  attempt now location m d = elim (get_order_by_id m.order_id d.register.orders) [
    | none ↦ next false (discard m d)
    | some order ↦ end_turn m (dispatch server now location m order d.wire d.register.orders) d
  ]

  unfoldable pub turn : ℕ → Text → List Text → OrderMutation → Device S → Turn S
  unfolding attempt
  turn now location blocked m d =
      if is_some (given m.last_error)
      then next true d
      else if any (text_eq m.order_id) blocked
      then next false d
      else attempt now location m d

  unfoldable pub push_all :
      ℕ → Text → List Text → List OrderMutation → Device S → Device S × Option CallError
  unfolding turn
  push_all now location blocked [] d = (d, none)
  push_all now location blocked (m ∷ ms) d = elim (turn now location blocked m d) [
    | stop d' e ↦ (d', some e)
    | next block d' ↦ push_all now location (if block then m.order_id ∷ blocked else blocked) ms d'
  ]

  unfoldable pub push_mutations : ℕ → Text → Device S → Device S × Option CallError
  unfolding push_all
  push_mutations now location d = push_all now location [] (list_pending d.register.outbox) d

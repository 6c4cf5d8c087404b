-- ===== src/Register/Sync/Frame.antt =====
-- What a call to the server leaves of the local orders: each order that was there is there.
use antd_platform.Prelude.{
  ℕ, ◌≡◌, refl, ap, arith, Bool, true, false, Option, none, some, List, [], ◌∷◌, Text, text_eq,
  Result, ok, err, any, is_some, inl, inr, Bool-cases, if◌then◌else◌,
}
use antd_platform.Pricing.Discounts.{given}
use antd_platform.Register.{LocalOrder, OrderMutation, Work, create, append, fire, settle, open_tab}
use antd_platform.Register.Orders.{
  get_order_by_id, update_at, mark_synced, attach_server_id, mark_order_failed, accept, attach,
  reject, same_local_status,
}
use antd_platform.Register.Wire.{Server, Wire, Reply, reply, CallError}
use antd_platform.Register.Sync.{
  went, record_create, settled, landed, dispatch_to, with_server_id, dispatch_work, dispatch,
  require_server_id, unchanged, Device, next, stop, attempt, turn, end_turn, discard, push_all,
}

abbrev pub is_known : Text → List LocalOrder → Bool
is_known j orders = is_some (get_order_by_id j orders)

abbrev pub KeepsId : (LocalOrder → LocalOrder) → Type 0
KeepsId f = (o : LocalOrder) → (f o).id ≡ o.id

pub update_at-is_known :
    (id : Text) (f : LocalOrder → LocalOrder) (keeps : KeepsId f) (j : Text)
    (orders : List LocalOrder)
    → is_known j (update_at id f orders) ≡ is_known j orders
unfolding get_order_by_id
update_at-is_known id f keeps j [] = refl
update_at-is_known id f keeps j (o ∷ os) =
    ground (arith, keeps o, update_at-is_known id f keeps j os)

-- A write that every order survives.
abbrev pub Survives : (List LocalOrder → List LocalOrder) → Type 0
Survives write =
    (j : Text) (orders : List LocalOrder) → is_known j (write orders) ≡ is_known j orders

mark_synced-Survives :
    (now : ℕ) (id server_id : Text) (ticket : Option ℕ)
    → Survives (mark_synced now id server_id ticket)
unfolding mark_synced
mark_synced-Survives now id server_id ticket =
    update_at-is_known id (accept now server_id ticket) (λ o. unfold accept in refl)

attach_server_id-Survives :
    (now : ℕ) (id server_id : Text) (ticket : Option ℕ)
    → Survives (attach_server_id now id server_id ticket)
unfolding attach_server_id
attach_server_id-Survives now id server_id ticket =
    update_at-is_known id (attach now server_id ticket) (λ o. unfold attach in refl)

pub mark_order_failed-Survives : (id message : Text) → Survives (mark_order_failed id message)
unfolding mark_order_failed
mark_order_failed-Survives id message =
    update_at-is_known id (reject message) (λ o. unfold reject in refl)

record_create-Survives :
    (now : ℕ) (order : LocalOrder) (server_id : Text) (ticket : Option ℕ)
    → Survives (record_create now order server_id ticket)
unfolding record_create
record_create-Survives now order server_id ticket j orders =
    elim (Bool-cases (same_local_status order.status open_tab)) [
      | inl e ↦ rw e (attach_server_id-Survives now order.id server_id ticket j orders)
      | inr e ↦ rw e (mark_synced-Survives now order.id server_id ticket j orders)
    ]

module _ {S : Type 0} where
  -- The local orders after a call that went through are what is written at its answer.
  pub landed-went :
      (r : Reply S) (write : Text → Option ℕ → List LocalOrder → List LocalOrder)
      (orders orders' : List LocalOrder) (w' : Wire S)
      → landed r write orders ≡ went w' orders'
      → (id : Text) × (ticket : Option ℕ) × (orders' ≡ write id ticket orders)
  unfolding landed
  landed-went (reply w (ok (id, ticket))) write orders orders' w' h = (id, ticket, cc)
  landed-went (reply w (err e)) write orders orders' w' h = cc

  landed-is_known :
      (r : Reply S) (write : Text → Option ℕ → List LocalOrder → List LocalOrder)
      (orders orders' : List LocalOrder) (w' : Wire S)
      → ((id : Text) (ticket : Option ℕ) → Survives (write id ticket))
      → landed r write orders ≡ went w' orders'
      → (j : Text) → is_known j orders' ≡ is_known j orders
  landed-is_known r write orders orders' w' survives h j =
      let (id, ticket, e) = landed-went r write orders orders' w' h in
      rw e (survives id ticket j orders)

module _ {S : Type 0} (server : Server S) where
  dispatch_to-is_known :
      (now : ℕ) (server_id : Text) (m : OrderMutation) (order : LocalOrder) (work : Work)
      (w w' : Wire S) (orders orders' : List LocalOrder)
      → dispatch_to server now server_id m order work w orders ≡ went w' orders'
      → (j : Text) → is_known j orders' ≡ is_known j orders
  unfolding dispatch_to
  dispatch_to-is_known now server_id m order create w w' orders orders' h j =
      let same : orders' ≡ orders = cc in ap (is_known j) same
  dispatch_to-is_known now server_id m order (append items) w w' orders orders' h j =
      landed-is_known _ unchanged orders orders' w' (λ id ticket k os. refl) h j
  dispatch_to-is_known now server_id m order (fire course) w w' orders orders' h j =
      landed-is_known _ unchanged orders orders' w' (λ id ticket k os. refl) h j
  dispatch_to-is_known now server_id m order (settle method tip) w w' orders orders' h j =
      landed-is_known _ (λ id ticket. settled now order server_id) orders orders' w'
        (λ id ticket k os.
          unfold settled in mark_synced-Survives now order.id server_id order.ticket_number k os)
        h j

  with_server_id-is_known :
      (now : ℕ) (id : Result CallError Text) (m : OrderMutation) (order : LocalOrder)
      (w w' : Wire S) (orders orders' : List LocalOrder)
      → with_server_id server now id m order w orders ≡ went w' orders'
      → (j : Text) → is_known j orders' ≡ is_known j orders
  unfolding with_server_id
  with_server_id-is_known now (err e) m order w w' orders orders' h j = cc
  with_server_id-is_known now (ok id) m order w w' orders orders' h j =
      dispatch_to-is_known now id m order m.work w w' orders orders' h j

  dispatch_work-is_known :
      (now : ℕ) (location : Text) (m : OrderMutation) (order : LocalOrder) (work : Work)
      (w w' : Wire S) (orders orders' : List LocalOrder)
      → dispatch_work server now location m order work w orders ≡ went w' orders'
      → (j : Text) → is_known j orders' ≡ is_known j orders
  unfolding dispatch_work
  dispatch_work-is_known now location m order create w w' orders orders' h j =
      landed-is_known _ (record_create now order) orders orders' w'
        (record_create-Survives now order) h j
  dispatch_work-is_known now location m order work w w' orders orders' h j =
      with_server_id-is_known now (require_server_id order) m order w w' orders orders' h j

  pub dispatch-is_known :
      (now : ℕ) (location : Text) (m : OrderMutation) (order : LocalOrder) (w w' : Wire S)
      (orders orders' : List LocalOrder)
      → dispatch server now location m order w orders ≡ went w' orders'
      → (j : Text) → is_known j orders' ≡ is_known j orders
  unfolding dispatch
  dispatch-is_known now location m order w w' orders orders' h j =
      dispatch_work-is_known now location m order m.work w w' orders orders' h j

-- The branches of a turn.
module _ {S : Type 0} (server : Server S) (now : ℕ) (location : Text) (m : OrderMutation)
    (d : Device S) where
  pub attempt_unknown :
      get_order_by_id m.order_id d.register.orders ≡ none
      → attempt server now location m d ≡ next false (discard m d)
  unfolding attempt
  attempt_unknown e = rw (e, attempt)

  pub attempt_known :
      (order : LocalOrder)
      → get_order_by_id m.order_id d.register.orders ≡ some order
      → attempt server now location m d
        ≡ end_turn m (dispatch server now location m order d.wire d.register.orders) d
  unfolding attempt
  attempt_known order e = rw (e, attempt)

  pub turn_parked :
      (blocked : List Text)
      → is_some (given m.last_error) ≡ true
      → turn server now location blocked m d ≡ next true d
  unfolding turn
  turn_parked blocked e = rw e

  pub turn_blocked :
      (blocked : List Text)
      → is_some (given m.last_error) ≡ false
      → any (text_eq m.order_id) blocked ≡ true
      → turn server now location blocked m d ≡ next false d
  unfolding turn
  turn_blocked blocked e b = rw (e, b)

  pub turn_free :
      (blocked : List Text)
      → is_some (given m.last_error) ≡ false
      → any (text_eq m.order_id) blocked ≡ false
      → turn server now location blocked m d ≡ attempt server now location m d
  unfolding turn
  turn_free blocked e b = rw (e, b)

  pub push_all_stop :
      (blocked : List Text) (rest : List OrderMutation) (d' : Device S) (x : CallError)
      → turn server now location blocked m d ≡ stop d' x
      → push_all server now location blocked (m ∷ rest) d ≡ (d', some x)
  unfolding push_all
  push_all_stop blocked rest d' x e = rw (e, push_all)

  pub push_all_next :
      (blocked : List Text) (rest : List OrderMutation) (d' : Device S) (block : Bool)
      → turn server now location blocked m d ≡ next block d'
      → push_all server now location blocked (m ∷ rest) d
        ≡ push_all server now location (if block then m.order_id ∷ blocked else blocked) rest d'
  unfolding push_all
  push_all_next blocked rest d' block e = rw (e, push_all)

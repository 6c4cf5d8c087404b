-- ===== src/Register/Sync/Drain.antt =====
-- A turn with the server in reach: its mutation costs one request, and is delivered.
use mathlib.Core.Option.{some-injective}
use antd_platform.Prelude.{
  get_or, ℕ, ◌+◌, ◌≡◌, inl, inr, refl, sym, ap, ◌∙◌, subst, arith, Bool, true, false, ◌||◌, Option,
  Option-cases, none, some, List, [], ◌∷◌, ◌++◌, Text, text_eq, length, length-append, ok,
}
use antd_platform.Pricing.Discounts.{given}
use antd_platform.Register.{LocalOrder, OrderMutation, Work, create, append, fire, settle}
use antd_platform.Register.Orders.{get_order_by_id}
use antd_platform.Register.Outbox.{remove}
use antd_platform.Register.Wire.{
  Request, create_pos_order, append_order_items, fire_course, pay_order, accepted, Fate, answered,
  Server, Wire, reply, call, send, call_on, heard,
}
use antd_platform.Register.Sync.{
  create_request, Device, Outcome, went, Turn, next, dispatch, dispatch_work, dispatch_to,
  with_server_id, require_server_id, landed, record_create, settled, end_turn, attempt, turn,
  unchanged,
}
use antd_platform.Register.Sync.Frame.{is_known, dispatch-is_known, attempt_known, turn_free}
use antd_platform.Register.Sync.Addressed.{
  addressed, Addresses, get_order_by_id-id, record_create-Addresses, settled-Addresses,
  unchanged-Addresses,
}

abbrev pub is_create : Work → Bool
is_create create = true
is_create (append items) = false
is_create (fire course) = false
is_create (settle method tip) = false

-- Each mutation is a create, or of an order that has its id or whose create comes before.
abbrev pub Ready : (Text → Bool) → List OrderMutation → Type 0
Ready has [] = Unit {0}
Ready has (m ∷ ms) =
    ((is_create m.work || has m.order_id) ≡ true) × Ready (λ j. text_eq m.order_id j || has j) ms

abbrev pub IsOpen : OrderMutation → Type 0
IsOpen m = m.last_error ≡ none

abbrev pub IsKnownIn : List LocalOrder → OrderMutation → Type 0
IsKnownIn orders m = is_known m.order_id orders ≡ true

-- The request by which a mutation of an order reaches the server.
unfoldable pub request_for : Text → OrderMutation → LocalOrder → Work → Request
request_for location m order create = create_pos_order (create_request location order)
request_for location m order (append items) =
    append_order_items (get_or (given order.server_id) []) m.id items
request_for location m order (fire course) =
    fire_course (get_or (given order.server_id) []) course m.id
request_for location m order (settle method tip) =
    pay_order (get_or (given order.server_id) []) method tip

-- The server accepts the request, and answers with an id that is not empty.
abbrev pub Takes : {S : Type 0} → Server S → Request → S → Type 0
Takes server r s =
    (c : ℕ) × (cs : Text) × (ticket : Option ℕ) × ((server.handle r s).1 ≡ accepted (c ∷ cs) ticket)

-- The server accepts the request of the next mutation.
abbrev pub TakesTurn : {S : Type 0} → Server S → Text → OrderMutation → Device S → Type 0
TakesTurn server location m d =
    (order : LocalOrder)
    → get_order_by_id m.order_id d.register.orders ≡ some order
    → Takes server (request_for location m order m.work) d.wire.server

-- What is known of the order decides.
pub TakesTurn-known :
    {S : Type 0} (server : Server S) (location : Text) (m : OrderMutation) (d : Device S)
    (order : LocalOrder)
    → get_order_by_id m.order_id d.register.orders ≡ some order
    → Takes server (request_for location m order m.work) d.wire.server
    → TakesTurn server location m d
TakesTurn-known server location m d order found takes other h =
    subst (λ o. Takes server (request_for location m o m.work) d.wire.server)
      (some-injective _ _ (sym found ∙ h)) takes

module _ {S : Type 0} (server : Server S) where
  -- An answered request.
  call_answered :
      (r : Request) (fates : List Fate) (w : Wire S)
      → Takes server r w.server
      → w.fates ≡ answered ∷ fates
      → (w' : Wire S) × (c : ℕ) × (cs : Text) × (ticket : Option ℕ) × (call server r w
          ≡ reply w' (ok (c ∷ cs, ticket)))
        × (w'.fates ≡ fates)
        × (w'.handled ≡ w.handled ++ r ∷ [])
  unfolding call call_on send heard
  call_answered r fates w (c, cs, ticket, e) h = (
    record { server = (server.handle r w.server).0; fates = fates; handled = w.handled ++ r ∷ [] },
    c,
    cs,
    ticket,
    rw (h, e),
    refl,
    refl,
  )

  -- A call that went through and cost one request.
  record Went (id : Text) (fates : List Fate) (w : Wire S) (orders : List LocalOrder)
      (outcome : Outcome S) : Type 0 where
    wire : Wire S
    after : List LocalOrder
    is : outcome ≡ went wire after
    fates_left : wire.fates ≡ fates
    one_request : length wire.handled ≡ length w.handled + 1
    addresses : Addresses id orders after

  landed-Went :
      (r : Request) (write : Text → Option ℕ → List LocalOrder → List LocalOrder) (id : Text)
      (fates : List Fate) (w : Wire S) (orders : List LocalOrder)
      → Takes server r w.server
      → w.fates ≡ answered ∷ fates
      → ((c : ℕ) (cs : Text) (ticket : Option ℕ)
          → Addresses id orders (write (c ∷ cs) ticket orders))
      → Went id fates w orders (landed (call server r w) write orders)
  unfolding landed
  landed-Went r write id fates w orders takes h addresses =
      let (w', c, cs, ticket, e, left, one) = call_answered r fates w takes h in
      record {
        wire = w';
        after = write (c ∷ cs) ticket orders;
        is = rw e;
        fates_left = left;
        one_request = ap length one ∙ length-append w.handled (r ∷ []) ∙ omega arith;
        addresses = addresses c cs ticket;
      }

  module _ (now : ℕ) (location : Text) (m : OrderMutation) (order : LocalOrder) (fates : List Fate)
      (w : Wire S) (orders : List LocalOrder) (online : w.fates ≡ answered ∷ fates)
      (found : get_order_by_id order.id orders ≡ some order) where
    found-is_known : is_known order.id orders ≡ true
    found-is_known = rw found

    dispatch_to-Went :
        (id : Text) (work : Work)
        → is_create work ≡ false
        → given order.server_id ≡ some id
        → Takes server (request_for location m order work) w.server
        → Went order.id fates w orders (dispatch_to server now id m order work w orders)
    unfolding dispatch_to request_for
    dispatch_to-Went id create e g takes = cc
    dispatch_to-Went id (append items) e g takes =
        let has : addressed order.id orders ≡ true = rw (found, g) in
        landed-Went _ unchanged order.id fates w orders (rw g at takes) online
          (λ c cs ticket. unchanged-Addresses order.id orders has)
    dispatch_to-Went id (fire course) e g takes =
        let has : addressed order.id orders ≡ true = rw (found, g) in
        landed-Went _ unchanged order.id fates w orders (rw g at takes) online
          (λ c cs ticket. unchanged-Addresses order.id orders has)
    dispatch_to-Went id (settle method tip) e g takes =
        landed-Went _ (λ i ticket. settled now order id) order.id fates w orders (rw g at takes)
          online (λ c cs ticket. settled-Addresses now order id orders g found-is_known)

    with_its_id :
        (id : Text)
        → given order.server_id ≡ some id
        → with_server_id server now (require_server_id order) m order w orders
          ≡ dispatch_to server now id m order m.work w orders
    unfolding with_server_id require_server_id
    with_its_id id g =
        let e : require_server_id order ≡ ok id = rw (g, require_server_id) in
        rw (e, with_server_id)

    dispatch_addressed :
        is_create m.work ≡ false
        → addressed order.id orders ≡ true
        → Takes server (request_for location m order m.work) w.server
        → Went order.id fates w orders
            (with_server_id server now (require_server_id order) m order w orders)
    dispatch_addressed e has takes = elim (Option-cases (given order.server_id)) [
      | inl nothing ↦
          let absent : addressed order.id orders ≡ false = rw (found, nothing) in
          absurd (ground arith)
      | inr (id, g) ↦
          subst (Went order.id fates w orders) (sym (with_its_id id g))
            (dispatch_to-Went id m.work e g takes)
    ]

    taken :
        {work : Work}
        → m.work ≡ work
        → Takes server (request_for location m order work) w.server
        → Takes server (request_for location m order m.work) w.server
    taken same takes =
        subst (λ q. Takes server (request_for location m order q) w.server) (sym same) takes

    dispatch_work-Went :
        (work : Work)
        → m.work ≡ work
        → (is_create work || addressed order.id orders) ≡ true
        → Takes server (request_for location m order work) w.server
        → Went order.id fates w orders (dispatch_work server now location m order work w orders)
    unfolding dispatch_work request_for
    dispatch_work-Went create same h takes =
        landed-Went _ (record_create now order) order.id fates w orders takes online
          (λ c cs ticket. record_create-Addresses now order c cs ticket orders found-is_known)
    dispatch_work-Went (append items) same h takes =
        dispatch_addressed (ap is_create same) h (taken same takes)
    dispatch_work-Went (fire course) same h takes =
        dispatch_addressed (ap is_create same) h (taken same takes)
    dispatch_work-Went (settle method tip) same h takes =
        dispatch_addressed (ap is_create same) h (taken same takes)

  -- A turn that delivers its mutation and goes on.
  pub record Delivers (m : OrderMutation) (fates : List Fate) (d : Device S) (t : Turn S)
      : Type 0 where
    pub after : Device S
    pub is : t ≡ next false after
    pub fates_left : after.wire.fates ≡ fates
    pub one_request : length after.wire.handled ≡ length d.wire.handled + 1
    pub delivered_is : after.delivered ≡ d.delivered ++ m ∷ []
    pub outbox_is : after.register.outbox ≡ remove m.id d.register.outbox
    pub known_kept : (j : Text) → is_known j after.register.orders ≡ is_known j d.register.orders
    pub addresses : Addresses m.order_id d.register.orders after.register.orders

  module _ (now : ℕ) (location : Text) (m : OrderMutation) (fates : List Fate) (d : Device S)
      (online : d.wire.fates ≡ answered ∷ fates) where
    attempt-Delivers :
        (order : LocalOrder)
        → get_order_by_id m.order_id d.register.orders ≡ some order
        → (is_create m.work || addressed m.order_id d.register.orders) ≡ true
        → Takes server (request_for location m order m.work) d.wire.server
        → Delivers m fates d (attempt server now location m d)
    attempt-Delivers order e h takes =
        let same : order.id ≡ m.order_id =
          get_order_by_id-id m.order_id d.register.orders order e in
        let found : get_order_by_id order.id d.register.orders ≡ some order =
          ap (λ k. get_order_by_id k d.register.orders) same ∙ e in
        let ready : (is_create m.work || addressed order.id d.register.orders) ≡ true =
          subst (λ k. (is_create m.work || addressed k d.register.orders) ≡ true) (sym same) h in
        let g : Went order.id fates d.wire d.register.orders
            (dispatch server now location m order d.wire d.register.orders) =
          unfold dispatch in
          dispatch_work-Went now location m order fates d.wire d.register.orders online found m.work
            refl ready takes in
        record {
          after = record {
            wire = g.wire;
            register = record { orders = g.after; outbox = remove m.id d.register.outbox };
            delivered = d.delivered ++ m ∷ [];
          };
          is =
              attempt_known server now location m d order e
              ∙ ap (λ o. end_turn m o d) g.is
              ∙ unfold end_turn in refl;
          fates_left = g.fates_left;
          one_request = g.one_request;
          delivered_is = refl;
          outbox_is = refl;
          known_kept =
              dispatch-is_known server now location m order d.wire g.wire d.register.orders g.after
                g.is;
          addresses = subst (λ k. Addresses k d.register.orders g.after) same g.addresses;
        }

    pub turn-Delivers :
        IsOpen m
        → IsKnownIn d.register.orders m
        → (is_create m.work || addressed m.order_id d.register.orders) ≡ true
        → TakesTurn server location m d
        → Delivers m fates d (turn server now location [] m d)
    turn-Delivers clear known ready takes =
        elim (Option-cases (get_order_by_id m.order_id d.register.orders)) [
          | inl e ↦
              let at : is_known m.order_id d.register.orders ≡ false = rw e in absurd (ground arith)
          | inr (order, e) ↦
              subst (Delivers m fates d)
                (sym (turn_free server now location m d [] (rw clear) refl))
                (attempt-Delivers order e ready (takes order e))
        ]

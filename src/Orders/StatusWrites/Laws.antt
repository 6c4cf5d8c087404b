-- ===== src/Orders/StatusWrites/Laws.antt =====
-- Every status write follows the table, and touches nothing else.
use antd_platform.Prelude.{
  ◌≡◌, refl, ◌≢◌, ◌⊎◌, inl, inr, true, Option, none, some, Text, ok, subst, sym, arith,
  Option-cases,
}
use antd_platform.Status.{OrderStatus, refunded, can_transition_order_status}
use antd_platform.Database.{Order, Db, find_order, update_order}
use antd_platform.Database.Laws.{KeepsKeys, find_order-update_order, find_order-update_order_ne}
use antd_platform.Orders.StatusWrites.{
  set_status, update_order_status, advance_native_status, handle_status_change, change_order,
  wanted, manual_status, move_to, StatusEvent, find_by_id,
}

pub set_status-KeepsKeys : (s : OrderStatus) → KeepsKeys (set_status s)
set_status-KeepsKeys s = record { id_kept = λ o. refl; organization_kept = λ o. refl }

-- What a permitted write does: it keeps the order, or moves it along one legal transition and
-- changes no other column.
pub data Follows (o : Order) (o' : Order) : Type 0 where
  stays : o' ≡ o → Follows o o'
  moves :
      (t : OrderStatus)
      → can_transition_order_status o.status t ≡ true
      → o' ≡ set_status t o
      → Follows o o'

pub record Written (org id : Text) (db db' : Db) : Type 0 where
  pub before : Order
  pub after : Order
  pub was : find_order org id db ≡ some before
  pub is : find_order org id db' ≡ some after
  pub follows : Follows before after
  pub others : (j : Text) → j ≢ id → find_order org j db' ≡ find_order org j db
  pub payments_kept : db'.payments ≡ db.payments

update_order-Written :
    (org id : Text) (t : OrderStatus) (db : Db) {o : Order}
    → find_order org id db ≡ some o
    → can_transition_order_status o.status t ≡ true
    → Written org id db (update_order id (set_status t) db)
unfolding update_order
update_order-Written org id t db {o} found legal = record {
  before = o;
  after = set_status t o;
  was = found;
  is = find_order-update_order id (set_status t) (set_status-KeepsKeys t) org db found;
  follows = moves t legal refl;
  others =
      λ j ne. find_order-update_order_ne id (set_status t) (set_status-KeepsKeys t) org j db ne;
  payments_kept = refl;
}

Written-refl :
    (org id : Text) (db : Db) {o : Order} → find_order org id db ≡ some o → Written org id db db
Written-refl org id db {o} found = record {
  before = o;
  after = o;
  was = found;
  is = found;
  follows = stays refl;
  others = λ j ne. refl;
  payments_kept = refl;
}

pub manual_status-ne-refunded :
    (text : Text) (t : OrderStatus) → manual_status text ≡ some t → t ≢ refunded
unfolding manual_status
manual_status-ne-refunded text t h e = ground arith

pub update_order_status-inv :
    (org id status : Text) (db db' : Db)
    → update_order_status org id status db ≡ ok db'
    → (t : OrderStatus) × (o : Order) × (manual_status status ≡ some t)
      × (find_order org id db ≡ some o)
      × (can_transition_order_status o.status t ≡ true)
      × (db' ≡ update_order id (set_status t) db)
unfolding update_order_status can_transition_order_status
update_order_status-inv org id status db db' h = ground arith

-- When the dashboard's endpoint accepts a status, the requested text names a manual status, the
-- order's status moved to it along a legal transition, no other column of it changed, and neither
-- did any other order or payment.
pub update_order_status-Written :
    (org id status : Text) (db db' : Db)
    → update_order_status org id status db ≡ ok db'
    → Written org id db db'
      × ((t : OrderStatus) × (manual_status status ≡ some t)
          × (t ≢ refunded)
          × (db' ≡ update_order id (set_status t) db))
update_order_status-Written org id status db db' h =
    let (t, o, chosen, found, legal, e) = update_order_status-inv org id status db db' h in
    (
      subst (Written org id db) (sym e) (update_order-Written org id t db found legal),
      (t, chosen, manual_status-ne-refunded status t chosen, e),
    )

advance_native_status-inv :
    (org id : Text) (target : OrderStatus) (db db' : Db)
    → advance_native_status org id target db ≡ ok db'
    → (o : Order) × (find_order org id db ≡ some o)
      × ((db' ≡ db)
          ⊎ ((can_transition_order_status o.status target ≡ true)
              × (db' ≡ update_order id (set_status target) db)))
unfolding advance_native_status
advance_native_status-inv org id target db db' h = ground arith

-- When a marketplace button succeeds, the order kept its status or moved along one legal transition
-- to the wanted one, no other column of it changed, and neither did any other order or payment.
pub advance_native_status-Written :
    (org id : Text) (target : OrderStatus) (db db' : Db)
    → advance_native_status org id target db ≡ ok db'
    → Written org id db db'
advance_native_status-Written org id target db db' h =
    let (o, found, effect) = advance_native_status-inv org id target db db' h in
    elim effect [
      | inl e ↦ subst (Written org id db) (sym e) (Written-refl org id db found)
      | inr (legal, e) ↦
          subst (Written org id db) (sym e) (update_order-Written org id target db found legal)
    ]

-- The order that an id names does not depend on the organization that asks: ids are primary keys.
pub record HasUniqueIds (db : Db) : Type 0 where
  pub one_row :
      (org id : Text) (o o' : Order)
      → find_by_id id db ≡ some o
      → find_order org id db ≡ some o'
      → o ≡ o'

move_to-inv :
    (org id : Text) (current target : OrderStatus) (db db' : Db)
    → move_to org id current target db ≡ ok db'
    → (db' ≡ db)
      ⊎ ((o : Order) × (find_order org id db ≡ some o)
          × (can_transition_order_status current target ≡ true)
          × (db' ≡ update_order id (set_status target) db))
unfolding move_to
move_to-inv org id current target db db' h = ground arith

change_order-Written :
    (org id : Text) (read : Option Order) (target : Option OrderStatus) (db db' : Db)
    → HasUniqueIds db
    → find_by_id id db ≡ read
    → change_order org id read target db ≡ ok db'
    → (db' ≡ db) ⊎ Written org id db db'
unfolding change_order
change_order-Written org id none target db db' keyed r h = inl (ground arith)
change_order-Written org id (some o) none db db' keyed r h = inl (ground arith)
change_order-Written org id (some o) (some target) db db' keyed r h =
    elim (move_to-inv org id o.status target db db' h) [
      | inl same ↦ inl same
      | inr (o', found, legal, result) ↦
          let legal' : can_transition_order_status o'.status target ≡ true =
            rw (← keyed.one_row org id o o' r found) legal in
          inr (
            subst (Written org id db) (sym result)
              (update_order-Written org id target db found legal'))
    ]

-- A marketplace webhook that is processed leaves the tables alone, or moves the order that it names
-- as the two endpoints do.
pub handle_status_change-Written :
    (org : Text) (e : StatusEvent) (db db' : Db)
    → HasUniqueIds db
    → handle_status_change org e db ≡ ok db'
    → (db' ≡ db) ⊎ ((id : Text) × (e.internal_order ≡ some id) × Written org id db db')
unfolding handle_status_change
handle_status_change-Written org e db db' keyed h = elim (Option-cases e.internal_order) [
  | inl nothing ↦ inl (ground arith)
  | inr (id, named) ↦
      elim (change_order-Written org id (find_by_id id db) (wanted e) db db' keyed refl
        (ground arith)) [ inl same ↦ inl same | inr written ↦ inr (id, named, written) ]
]

-- ===== src/Register/Sync/Addressed.antt =====
-- Which local orders have their server's id, before and after a call that went through.
use antd_platform.Prelude.{
  ℕ, ◌≡◌, inl, inr, refl, sym, ap, ◌∙◌, subst, arith, Bool, true, false, ◌||◌, ◌&&◌, Bool-cases,
  Option, none, some, List, [], ◌∷◌, Text, text_eq, text_eq_iff, is_some,
}
use antd_platform.Pricing.Discounts.{given}
use antd_platform.Register.{LocalOrder, open_tab}
use antd_platform.Register.Orders.{
  get_order_by_id, update_at, mark_synced, attach_server_id, accept, attach, same_local_status,
}
use antd_platform.Register.Sync.{record_create, settled}
use antd_platform.Register.Sync.Frame.{is_known, KeepsId}

-- The server's id of an order is recorded.
abbrev pub has_server_id : Option LocalOrder → Bool
has_server_id none = false
has_server_id (some o) = is_some (given o.server_id)

abbrev pub addressed : Text → List LocalOrder → Bool
addressed j orders = has_server_id (get_order_by_id j orders)

update_at-addressed :
    (id : Text) (f : LocalOrder → LocalOrder) (keeps : KeepsId f)
    (attaches : (o : LocalOrder) → is_some (given (f o).server_id) ≡ true) (j : Text)
    (orders : List LocalOrder)
    → ((text_eq id j && is_known j orders) || addressed j orders) ≡ true
    → addressed j (update_at id f orders) ≡ true
unfolding get_order_by_id
update_at-addressed id f keeps attaches j [] h = ground arith
update_at-addressed id f keeps attaches j (o ∷ os) h = ground (
  arith,
  keeps o,
  attaches o,
  text_eq_iff o.id j,
  text_eq_iff o.id id,
  text_eq_iff id j,
  update_at-addressed id f keeps attaches j os,
)

pub get_order_by_id-id :
    (id : Text) (orders : List LocalOrder) (o : LocalOrder)
    → get_order_by_id id orders ≡ some o
    → o.id ≡ id
unfolding get_order_by_id
get_order_by_id-id id [] o h = cc
get_order_by_id-id id (x ∷ os) o h = elim (Bool-cases (text_eq x.id id)) [
  | inl e ↦
      let same : x ≡ o = ground arith in
      ap (λ (y : LocalOrder). y.id) (sym same) ∙ (text_eq_iff x.id id).0 e
  | inr e ↦ get_order_by_id-id id os o (ground arith)
]

-- What a call leaves that went through: the orders that had an id have it, and this one does.
abbrev pub Addresses : Text → List LocalOrder → List LocalOrder → Type 0
Addresses id orders orders' =
    (j : Text) → (text_eq id j || addressed j orders) ≡ true → addressed j orders' ≡ true

known_or :
    (id j : Text) (orders : List LocalOrder)
    → is_known id orders ≡ true
    → (text_eq id j || addressed j orders) ≡ true
    → ((text_eq id j && is_known j orders) || addressed j orders) ≡ true
known_or id j orders known h = elim (Bool-cases (text_eq id j)) [
  | inl e ↦
      let at : is_known j orders ≡ true =
        subst (λ k. is_known k orders ≡ true) ((text_eq_iff id j).0 e) known in
      rw (e, at)
  | inr e ↦ ground arith
]

pub record_create-Addresses :
    (now : ℕ) (order : LocalOrder) (c : ℕ) (cs : Text) (ticket : Option ℕ)
    (orders : List LocalOrder)
    → is_known order.id orders ≡ true
    → Addresses order.id orders (record_create now order (c ∷ cs) ticket orders)
unfolding record_create attach_server_id mark_synced
record_create-Addresses now order c cs ticket orders known j h =
    let k = known_or order.id j orders known h in
    elim (Bool-cases (same_local_status order.status open_tab)) [
      | inl e ↦ rw e (
          update_at-addressed order.id (attach now (c ∷ cs) ticket) (λ o. unfold attach in refl)
            (λ o. unfold attach in refl) j orders k)
      | inr e ↦ rw e (
          update_at-addressed order.id (accept now (c ∷ cs) ticket) (λ o. unfold accept in refl)
            (λ o. unfold accept in refl) j orders k)
    ]

given-given : (o : Option Text) (t : Text) → given o ≡ some t → is_some (given (some t)) ≡ true
given-given none t h = cc
given-given (some []) t h = cc
given-given (some (c ∷ cs)) t h = ground arith

pub settled-Addresses :
    (now : ℕ) (order : LocalOrder) (id : Text) (orders : List LocalOrder)
    → given order.server_id ≡ some id
    → is_known order.id orders ≡ true
    → Addresses order.id orders (settled now order id orders)
unfolding settled mark_synced
settled-Addresses now order id orders g known j h =
    update_at-addressed order.id (accept now id order.ticket_number) (λ o. unfold accept in refl)
      (λ o. unfold accept in given-given order.server_id id g) j orders
      (known_or order.id j orders known h)

pub unchanged-Addresses :
    (id : Text) (orders : List LocalOrder) → addressed id orders ≡ true → Addresses id orders orders
unchanged-Addresses id orders has j h = elim (Bool-cases (text_eq id j)) [
  | inl e ↦ subst (λ k. addressed k orders ≡ true) ((text_eq_iff id j).0 e) has
  | inr e ↦ ground arith
]

-- ===== src/Orders/Edit/Laws.antt =====
-- What an edit leaves of the order, and that a retried append changes nothing.
use antd_platform.Prelude.{
  ◌⊎◌, ◌||◌, ℕ, ◌+◌, ◌-◌, ◌*◌, ◌≤◌, ◌≡◌, ◌≢◌, refl, subst, ap, ◌∙◌, arith, Text, text_eq,
  text_eq_refl, Option, none, some, any, ◌&&◌, List, [], ◌∷◌, ◌++◌, ok, Bool, true, false,
  Option-cases, Result-cases, inl, inr, Bool-cases, map, sum_of, sum_of-append,
}
use antd_platform.Prelude.Int.{pos, ◌≤ℤ◌}
use antd_platform.Status.{OrderStatus, pending, confirmed, same_status}
use antd_platform.Database.{Order, OrderItem, Db, Claim, find_order, update_order, items_subtotal}
use antd_platform.Database.Laws.{KeepsKeys, find_order-update_order, find_order-update_order_ne}
use antd_platform.Money.{Discount, discount_amount_for, rate_of}
use antd_platform.Pricing.Cart.{LineDto, ResolvedCartItem, price_cart_items, order_item}
use antd_platform.Pricing.Cart.Laws.{amount_of, price_cart_items-ArePriced}
use antd_platform.Pricing.Discounts.{given, resolve_discount}
use antd_platform.Pricing.Locations.{get_tax_rate}
use antd_platform.Pricing.Stock.{decrement_stock}
use antd_platform.Shop.{Shop}
use antd_platform.Orders.Payment.{paid_sum_for}
use antd_platform.Orders.Edit.{
  check_editable, already_done, is_claimed, add_claim, live_order, grow, append_items,
  append_order_items,
}

pub discount-le : (d : Option Discount) (s : ℕ) → discount_amount_for d s ≤ s
unfolding discount_amount_for
discount-le none s = omega arith
discount-le (some d) s = omega arith

-- The columns of an order that agree with its items and with each other.
pub record AddsUp (o : Order) (rate : ℕ) : Type 0 where
  pub subtotal_is : o.subtotal ≡ items_subtotal o.items
  pub discount_within : o.discount_amount ≤ o.subtotal
  pub tax_is : o.tax_amount ≡ rate_of (o.subtotal - o.discount_amount) rate
  pub total_is : o.total_amount + o.discount_amount ≡ o.subtotal + o.tax_amount + o.tip_amount

pub rows-subtotal :
    (items : List ResolvedCartItem)
    → items_subtotal (map (order_item none) items) ≡ sum_of amount_of items
unfolding items_subtotal
rows-subtotal [] = refl
rows-subtotal (i ∷ items) = omega (arith, rows-subtotal items)

rows-append :
    (xs ys : List OrderItem) → items_subtotal (xs ++ ys) ≡ items_subtotal xs + items_subtotal ys
unfolding items_subtotal
rows-append xs ys = sum_of-append (λ i. i.price * i.quantity) xs ys

grow-AddsUp :
    (items : List ResolvedCartItem) (discount : Option Discount) (rate : ℕ) (o : Order) (added : ℕ)
    → added ≡ sum_of amount_of items
    → AddsUp (grow items discount (items_subtotal o.items + added) rate o) rate
unfolding grow
grow-AddsUp items discount rate o added e = record {
  subtotal_is =
      omega (arith, rows-append o.items (map (order_item none) items), rows-subtotal items);
  discount_within = discount-le discount (items_subtotal o.items + added);
  tax_is = refl;
  total_is = omega (arith, discount-le discount (items_subtotal o.items + added));
}

-- Open for edits: unpaid, waiting or confirmed, and nothing paid on it.
abbrev pub IsOpen : Text → Order → Db → Type 0
IsOpen id o db =
    (o.paid_at ≡ none)
    × ((o.status ≡ pending) ⊎ (o.status ≡ confirmed))
    × (paid_sum_for id db ≤ℤ pos 0)

-- What an append that was not a replay leaves.
pub record Appended (org id : Text) (m : Option Text) (lines : List LineDto) (shop shop' : Shop)
    : Type 0 where
  pub before : Order
  pub after : Order
  pub items : List ResolvedCartItem
  pub added : ℕ
  pub was : find_order org id shop.db ≡ some before
  pub is : find_order org id shop'.db ≡ some after
  pub was_open : IsOpen id before shop.db
  pub priced : price_cart_items shop.menu org lines ≡ ok (items, added)
  pub old_lines_kept : after.items ≡ before.items ++ map (order_item none) items
  pub adds_up : AddsUp after (get_tax_rate shop.locations before.location_id)
  pub tip_kept : after.tip_amount ≡ before.tip_amount
  pub stock_taken : shop'.menu ≡ decrement_stock shop.menu items
  pub other_orders : (j : Text) → j ≢ id → find_order org j shop'.db ≡ find_order org j shop.db
  pub payments_kept : shop'.db.payments ≡ shop.db.payments
  pub mutation_claimed : shop'.db.claims ≡ (add_claim org m shop.db).claims

pub editable : (id : Text) (o : Order) (db : Db) → check_editable id o db ≡ ok tt → IsOpen id o db
unfolding check_editable
editable id o db h = (ground arith, open_status o.status (ground arith), ground arith)
  where
    open_status :
        (q : OrderStatus)
        → (same_status q pending || same_status q confirmed) ≡ true
        → (q ≡ pending) ⊎ (q ≡ confirmed)
    open_status pending e = inl refl
    open_status confirmed e = inr refl
    open_status q e = absurd (ground arith)

pub live_order-inv :
    (org id : Text) (db : Db) (o : Order)
    → live_order org id db ≡ ok o
    → find_order org id db ≡ some o
unfolding live_order
live_order-inv org id db o h = elim (Option-cases (find_order org id db)) [
  | inl e ↦ absurd (ground arith)
  | inr (x, e) ↦ ground arith
]

grow-KeepsKeys :
    (items : List ResolvedCartItem) (d : Option Discount) (s rate : ℕ)
    → KeepsKeys (grow items d s rate)
unfolding grow
grow-KeepsKeys items d s rate = record { id_kept = λ o. refl; organization_kept = λ o. refl }

pub find_order-add_claim :
    (org j own : Text) (m : Option Text) (db : Db)
    → find_order org j (add_claim own m db) ≡ find_order org j db
unfolding find_order add_claim
find_order-add_claim org j own none db = refl
find_order-add_claim org j own (some m) db = refl

pub payments-add_claim :
    (own : Text) (m : Option Text) (db : Db) → (add_claim own m db).payments ≡ db.payments
unfolding add_claim
payments-add_claim own none db = refl
payments-add_claim own (some m) db = refl

pub payments-update_order :
    (id : Text) (f : Order → Order) (db : Db) → (update_order id f db).payments ≡ db.payments
unfolding update_order
payments-update_order id f db = refl

pub claims-update_order :
    (id : Text) (f : Order → Order) (db : Db) → (update_order id f db).claims ≡ db.claims
unfolding update_order
claims-update_order id f db = refl

append_items-Appended :
    (org role id : Text) (m : Option Text) (lines : List LineDto) (shop shop' : Shop)
    → append_items org role id m lines shop ≡ ok shop'
    → Appended org id m lines shop shop'
unfolding append_items
append_items-Appended org role id m lines shop shop' h =
    elim (Result-cases (live_order org id shop.db)) [
      | inr (x, e) ↦ absurd (ground arith)
      | inl (o, e) ↦ elim (Result-cases (check_editable id o shop.db)) [
        | inr (x, f) ↦ absurd (ground arith)
        | inl (tt, f) ↦ elim (Result-cases (price_cart_items shop.menu org lines)) [
          | inr (x, g) ↦ absurd (ground arith)
          | inl ((items, added), g) ↦
              elim (Result-cases (resolve_discount shop.discounts org role o.discount_id none)) [
                | inr (x, k) ↦ absurd (ground arith)
                | inl (d, k) ↦
                    let rate = get_tax_rate shop.locations o.location_id in
                    let change = grow items d (items_subtotal o.items + added) rate in
                    let keeps = grow-KeepsKeys items d (items_subtotal o.items + added) rate in
                    let claimed = add_claim org m shop.db in
                    let found = live_order-inv org id shop.db o e in
                    let db_is : shop'.db ≡ update_order id change claimed = ground arith in
                    record {
                      before = o;
                      after = change o;
                      items = items;
                      added = added;
                      was = found;
                      is = rw db_is (
                          find_order-update_order id change keeps org claimed
                            (find_order-add_claim org id org m shop.db ∙ found));
                      was_open = editable id o shop.db (cc);
                      priced = g;
                      old_lines_kept = unfold grow in refl;
                      adds_up =
                          grow-AddsUp items d rate o added
                            (price_cart_items-ArePriced shop.menu org lines items added g).1;
                      tip_kept = unfold grow in refl;
                      stock_taken = ground arith;
                      other_orders = λ j ne. rw db_is (
                          find_order-update_order_ne id change keeps org j claimed ne
                          ∙ find_order-add_claim org j org m shop.db);
                      payments_kept = rw db_is (
                          payments-update_order id change claimed
                          ∙ payments-add_claim org m shop.db);
                      mutation_claimed = rw db_is (claims-update_order id change claimed);
                    }
              ]
        ]
      ]
    ]

-- When an append goes through that is not a replay, the order was unpaid, pending or confirmed, and had no
-- payments; its lines
-- stay as they are, prices included, and the priced new ones follow; the subtotal, the tax and the total
-- agree with the lines; the stock falls by what was added; no other order and no payment changes.
pub append_order_items-Appended :
    (org role id : Text) (m : Option Text) (lines : List LineDto) (shop shop' : Shop)
    → append_order_items org role id m lines shop ≡ ok (shop', false)
    → Appended org id (given m) lines shop shop'
unfolding append_order_items
append_order_items-Appended org role id m [] shop shop' h = absurd (ground arith)
append_order_items-Appended org role id m (line ∷ lines) shop shop' h =
    append_items-Appended org role id (given m) (line ∷ lines) shop shop' (appended h)
  where
    appended :
        append_order_items org role id m (line ∷ lines) shop ≡ ok (shop', false)
        → append_items org role id (given m) (line ∷ lines) shop ≡ ok shop'
    appended h = ground arith

is_claimed-add_claim :
    (org m : Text) (db : Db) → is_claimed org m (add_claim org (some m) db) ≡ true
unfolding is_claimed add_claim
is_claimed-add_claim org m db = rw (text_eq_refl org, text_eq_refl m)

is_claimed-cong :
    (org m : Text) (db db' : Db)
    → db'.claims ≡ (add_claim org (some m) db).claims
    → is_claimed org m db' ≡ true
unfolding is_claimed
is_claimed-cong org m db db' e =
    ap (any (λ (c : Claim). text_eq c.organization_id org && text_eq c.client_mutation_id m)) e
    ∙ is_claimed-add_claim org m db

claimed_done :
    (org m : Text) (db : Db) → is_claimed org m db ≡ true → already_done org (some m) db ≡ true
unfolding already_done
claimed_done org m db h = h

-- A stored claim is seen after any change of the order.
pub already_done-add_claim :
    (org m id : Text) (f : Order → Order) (db : Db)
    → already_done org (some m) (update_order id f (add_claim org (some m) db)) ≡ true
already_done-add_claim org m id f db =
    claimed_done org m (update_order id f (add_claim org (some m) db)) (
      is_claimed-cong org m db (update_order id f (add_claim org (some m) db))
        (unfold update_order in refl))

-- After an append with a mutation id, the same request changes nothing: it is answered as a replay,
-- whatever items it carries.
pub append_replayed :
    (org role id : Text) (c : ℕ) (cs : Text) (line other : LineDto) (lines others : List LineDto)
    (shop shop' : Shop) (flag : Bool)
    → append_order_items org role id (some (c ∷ cs)) (line ∷ lines) shop ≡ ok (shop', flag)
    → append_order_items org role id (some (c ∷ cs)) (other ∷ others) shop' ≡ ok (shop', true)
unfolding append_order_items
append_replayed org role id c cs line other lines others shop shop' flag h =
    let m = c ∷ cs in
    elim (Bool-cases (already_done org (some m) shop.db)) [
      | inl old ↦ elim (Option-cases (find_order org id shop.db)) [
        | inl e ↦ absurd (ground arith)
        | inr (o, e) ↦ ground arith
      ]
      | inr new ↦ elim (Result-cases (append_items org role id (some m) (line ∷ lines) shop)) [
        | inr (x, e) ↦ absurd (ground arith)
        | inl (next, e) ↦
            let a = append_items-Appended org role id (some m) (line ∷ lines) shop next e in
            let same : next ≡ shop' = ground arith in
            let done : already_done org (some m) shop'.db ≡ true = claimed_done org m shop'.db (
              is_claimed-cong org m shop.db shop'.db (
                subst (λ (s : Shop). s.db.claims ≡ (add_claim org (some m) shop.db).claims) same
                  a.mutation_claimed)) in
            let there : find_order org id shop'.db ≡ some a.after =
              subst (λ (s : Shop). find_order org id s.db ≡ some a.after) same a.is in
            rw (done, there)
      ]
    ]

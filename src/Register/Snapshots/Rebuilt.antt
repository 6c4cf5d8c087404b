-- ===== src/Register/Snapshots/Rebuilt.antt =====
-- A tab that is loaded into the cart and built again.
use antd_platform.Prelude.{
  ℕ, ◌≡◌, ◌≢◌, refl, ap, ◌∙◌, arith, true, Option, none, some, List, [], ◌∷◌, map, Text, text_eq,
  text_eq_refl, codes, is_some, get_or, find, All,
}
use antd_platform.Pricing.Discounts.{given}
use antd_platform.Cart.{CartLine}
use antd_platform.Cart.Lines.Added.{DistinctBy}
use antd_platform.Cart.Delta.Laws.{lines_delta_self}
use antd_platform.Register.{LocalOrder}
use antd_platform.Register.Snapshots.{
  CartCustomer, DiningTable, CachedDiscount, CartState, line_id_for_item, lines_from_order,
  customer_from_order, table_from_order, table_from, discount_by_id, discount_from_order, load_tab,
  tab_delta, fired_at, build_local_order, or_else, customer_id_of, customer_name_of,
  customer_phone_of, table_id_of, table_name_of, discount_id_of,
}
use antd_platform.Register.Snapshots.Laws.{
  entries_of, stored_line, lines-order_items, totals-stored_lines, AreIn-self, entries-order_items,
  items_again,
}

abbrev NonEmpty : Text → Type 0
NonEmpty t = is_some (given (some t)) ≡ true

-- The customer has an id.
abbrev pub HasId : Option CartCustomer → Type 0
HasId none = Unit {0}
HasId (some c) = NonEmpty c.id

-- The table has an id and a name.
abbrev pub IsNamed : Option DiningTable → Type 0
IsNamed none = Unit {0}
IsNamed (some t) = NonEmpty t.id × NonEmpty t.name

-- The discount has an id, and is what the cache has under it.
abbrev pub IsCached : List CachedDiscount → Option CachedDiscount → Type 0
IsCached cached none = Unit {0}
IsCached cached (some d) =
    NonEmpty d.discount.id
    × (find (λ (e : CachedDiscount). text_eq e.discount.id d.discount.id) cached ≡ some d)

given-NonEmpty : (t : Text) → NonEmpty t → given (some t) ≡ some t
given-NonEmpty [] h = cc
given-NonEmpty (c ∷ cs) h = refl

get_or-given : (t : Text) → get_or (given (some t)) [] ≡ t
get_or-given [] = refl
get_or-given (c ∷ cs) = refl

name_again :
    (n w : Text) (k : ℕ) (ks : Text)
    → w ≡ k ∷ ks
    → get_or (given (some (get_or (given (some n)) w))) w ≡ get_or (given (some n)) w
name_again [] w k ks e = rw e
name_again (c ∷ cs) w k ks e = refl

-- What a built order says of its customer is what the customer read from it says.
customer_again :
    (o : LocalOrder) (c : Option CartCustomer)
    → HasId c
    → o.customer_id ≡ customer_id_of c
    → o.customer_name ≡ customer_name_of c
    → o.customer_phone ≡ customer_phone_of c
    → (customer_id_of (customer_from_order o) ≡ customer_id_of c)
      × (customer_name_of (customer_from_order o) ≡ customer_name_of c)
      × (customer_phone_of (customer_from_order o) ≡ customer_phone_of c)
unfolding customer_from_order
customer_again o none h i n p =
    let walk_in : text_eq o.customer_name (codes "Walk-in") ≡ true =
      rw n (text_eq_refl (codes "Walk-in")) in
    ground arith
customer_again o (some c) h i n p =
    let id : given (some c.id) ≡ some c.id = given-NonEmpty c.id h in
    let there : o.customer_id ≡ some c.id = i ∙ id in
    let again = name_again c.name (codes "Walk-in") 87 (codes "alk-in") refl in
    let phone = get_or-given (get_or c.phone []) in
    let read : customer_from_order o
        ≡ some
            (record { id = c.id; name = o.customer_name; phone = given (some o.customer_phone) }) =
      rw (there, id) in
    (
      ap customer_id_of read,
      ap customer_name_of read ∙ ap (λ t. get_or (given (some t)) (codes "Walk-in")) n ∙ again,
      ap customer_phone_of read ∙ ap (λ t. get_or (given (some t)) []) p ∙ phone,
    )

table_again :
    (o : LocalOrder) (t : Option DiningTable)
    → IsNamed t
    → o.table_id ≡ table_id_of t
    → o.table_name ≡ table_name_of t
    → (table_id_of (table_from_order o) ≡ table_id_of t)
      × (table_name_of (table_from_order o) ≡ table_name_of t)
unfolding table_from_order table_from
table_again o none h i n = ground arith
table_again o (some t) (h, k) i n =
    let id : given o.table_id ≡ some t.id = ap given i ∙ given-NonEmpty t.id h in
    let name : given o.table_name ≡ some t.name = ap given n ∙ given-NonEmpty t.name k in
    (rw (id, name), rw (id, name))

discount_again :
    (cached : List CachedDiscount) (o : LocalOrder) (d : Option CachedDiscount)
    → IsCached cached d
    → o.discount_id ≡ discount_id_of d
    → discount_from_order cached o ≡ d
unfolding discount_from_order discount_by_id
discount_again cached o none h i = ground arith
discount_again cached o (some d) (h, k) i =
    let id : given o.discount_id ≡ some d.discount.id =
      ap given i ∙ given-NonEmpty d.discount.id h in
    rw (id, discount_by_id, k)

distinct-stored_lines :
    (ls : List CartLine) → DistinctBy (λ l. l.id) ls → DistinctBy (λ l. l.id) (map stored_line ls)
distinct-stored_lines [] d = tt
distinct-stored_lines (l ∷ ls) (d, ds) = (others ls d, distinct-stored_lines ls ds)
  where
    others :
        (ks : List CartLine)
        → All (λ k. l.id ≢ k.id) ks
        → All (λ k. l.id ≢ k.id) (map stored_line ks)
    others [] a = tt
    others (k ∷ ks) (a, more) = (a, others ks more)

module _ (now later : ℕ) (new_id other_id : Text) (rate : ℕ) (cart cart' : CartState) where
  -- Two carts that say the same make the same order.
  rebuilt :
      or_else cart'.tab_order_id cart'.resumed_order_id
        ≡ some (build_local_order now new_id rate cart).id
      → cart'.lines ≡ map stored_line cart.lines
      → cart'.fired_at_by_line ≡ entries_of (fired_at cart.fired_at_by_line) cart.lines
      → cart'.discount ≡ cart.discount
      → customer_id_of cart'.customer ≡ customer_id_of cart.customer
      → customer_name_of cart'.customer ≡ customer_name_of cart.customer
      → customer_phone_of cart'.customer ≡ customer_phone_of cart.customer
      → table_id_of cart'.table ≡ table_id_of cart.table
      → table_name_of cart'.table ≡ table_name_of cart.table
      → cart'.guests ≡ cart.guests
      → cart'.order_type ≡ cart.order_type
      → cart'.by_course ≡ cart.by_course
      → build_local_order later other_id rate cart'
        ≡ record (build_local_order now new_id rate cart) {
          created_at = later;
          tab_opened_at = cart'.tab_opened_at;
        }
  unfolding build_local_order
  rebuilt id lines fired d c1 c2 c3 t1 t2 guests order_type by_course =
      let again = items_again cart.fired_at_by_line cart.lines cart.lines (AreIn-self cart.lines) in
      simp (
        id, lines, fired, again, d, totals-stored_lines, c1, c2, c3, t1, t2, guests, order_type,
        by_course,
      )

-- A tab that is loaded into the cart and built again with nothing changed is the order that it was: the
-- lines with their fire times, the customer, the table, the discount and every amount are the same, and
-- nothing is owed to the server for it. Only the time of creation is new, and the time of opening is filled
-- in. The customer has an id, the table an id and a name, the discount is still cached as it was, and the
-- ids of the lines are distinct. The order is one that the register built itself.
pub load_tab-build :
    (now later : ℕ) (new_id other_id : Text) (rate : ℕ) (cached : List CachedDiscount)
    (cart : CartState)
    → HasId cart.customer
    → IsNamed cart.table
    → IsCached cached cart.discount
    → DistinctBy (λ l. l.id) cart.lines
    → let order = build_local_order now new_id rate cart in
      let loaded = load_tab cached order in
      (build_local_order later other_id rate loaded ≡ record order {
        created_at = later;
        tab_opened_at = some (get_or order.tab_opened_at order.created_at);
      })
      × (tab_delta loaded ≡ [])
load_tab-build now later new_id other_id rate cached cart customer table discount distinct =
    let order = build_local_order now new_id rate cart in
    let (c1, c2, c3) =
      customer_again order cart.customer customer (unfold build_local_order in refl)
        (unfold build_local_order in refl) (unfold build_local_order in refl) in
    let (t1, t2) =
      table_again order cart.table table (unfold build_local_order in refl)
        (unfold build_local_order in refl) in
    let d = discount_again cached order cart.discount discount (unfold build_local_order in refl) in
    let lines : lines_from_order order ≡ map stored_line cart.lines =
      unfold build_local_order lines_from_order in
      lines-order_items cart.fired_at_by_line cart.lines in
    let fired : map (λ i. (line_id_for_item i, i.fired_at)) order.items
        ≡ entries_of (fired_at cart.fired_at_by_line) cart.lines =
      unfold build_local_order in entries-order_items cart.fired_at_by_line cart.lines in
    (
      unfold load_tab in
          rebuilt now later new_id other_id rate cart (load_tab cached order) refl lines fired d c1
            c2 c3 t1 t2 (unfold build_local_order in refl) (unfold build_local_order in refl)
            (unfold build_local_order in refl),
      unfold load_tab tab_delta in
          rw lines (
            lines_delta_self (map stored_line cart.lines)
              (distinct-stored_lines cart.lines distinct)),
    )

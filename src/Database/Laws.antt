-- ===== src/Database/Laws.antt =====
-- What an update of one order leaves as it was, and what a later query finds.
use mathlib.Core.List.{append-nil}
use antd_platform.Prelude.{
  All, Bool-cases, inl, inr, true, ◌≡◌, refl, ap, ◌∙◌, some, List, [], ◌∷◌, ◌++◌, Text, text_eq,
  text_eq_iff, find, filter, arith, ◌&&◌, Bool, ◌≢◌,
}
use antd_platform.Database.{
  Order, Payment, Db, find_order, change_at, update_order, payments_of, insert_payments,
}

-- An update that keeps the keys of the order.
pub record KeepsKeys (f : Order → Order) : Type 0 where
  pub id_kept : (o : Order) → (f o).id ≡ o.id
  pub organization_kept : (o : Order) → (f o).organization_id ≡ o.organization_id

module _ (id : Text) (f : Order → Order) (keeps : KeepsKeys f) where
  find-change_at :
      (org : Text) (os : List Order) (o : Order)
      → find (λ o. text_eq o.id id && text_eq o.organization_id org) os ≡ some o
      → find (λ o. text_eq o.id id && text_eq o.organization_id org) (change_at id f os)
        ≡ some (f o)
  find-change_at org [] o h = cc
  find-change_at org (x ∷ os) o h =
      ground (arith, find-change_at org os o, keeps.id_kept x, keeps.organization_kept x)

  -- The order that was found is found again, changed.
  pub find_order-update_order :
      (org : Text) (db : Db) {o : Order}
      → find_order org id db ≡ some o
      → find_order org id (update_order id f db) ≡ some (f o)
  unfolding find_order update_order
  find_order-update_order org db {o} h = find-change_at org db.orders o h

  find-change_at_ne :
      (org j : Text) (os : List Order)
      → j ≢ id
      → find (λ o. text_eq o.id j && text_eq o.organization_id org) (change_at id f os)
        ≡ find (λ o. text_eq o.id j && text_eq o.organization_id org) os
  find-change_at_ne org j [] h = refl
  find-change_at_ne org j (x ∷ os) h = ground (
    arith,
    find-change_at_ne org j os h,
    keeps.id_kept x,
    keeps.organization_kept x,
    text_eq_iff x.id id,
    text_eq_iff x.id j,
  )

  -- Every other order is found as it was.
  pub find_order-update_order_ne :
      (org j : Text) (db : Db)
      → j ≢ id
      → find_order org j (update_order id f db) ≡ find_order org j db
  unfolding find_order update_order
  find_order-update_order_ne org j db h = find-change_at_ne org j db.orders h

filter-append {ℓ} :
    {A : Type ℓ} (p : A → Bool) (xs ys : List A) → filter p (xs ++ ys) ≡ filter p xs ++ filter p ys
filter-append p [] ys = refl
filter-append p (x ∷ xs) ys = ground (arith, filter-append p xs ys)

-- Rows of one order that are inserted are all read back, behind the older ones.
pub payments_of-insert_payments :
    (id : Text) (ps : List Payment) (db : Db)
    → filter (λ p. text_eq p.order_id id) ps ≡ ps
    → payments_of id (insert_payments ps db) ≡ payments_of id db ++ ps
unfolding payments_of insert_payments
payments_of-insert_payments id ps db h =
    filter-append (λ p. text_eq p.order_id id) db.payments ps
    ∙ ap (λ qs. filter (λ p. text_eq p.order_id id) db.payments ++ qs) h

-- Rows of another order are not read.
pub payments_of-insert_payments_ne :
    (j : Text) (ps : List Payment) (db : Db)
    → filter (λ p. text_eq p.order_id j) ps ≡ []
    → payments_of j (insert_payments ps db) ≡ payments_of j db
unfolding payments_of insert_payments
payments_of-insert_payments_ne j ps db h =
    filter-append (λ p. text_eq p.order_id j) db.payments ps
    ∙ ap (λ qs. filter (λ p. text_eq p.order_id j) db.payments ++ qs) h
    ∙ append-nil (filter (λ p. text_eq p.order_id j) db.payments)

-- No order's update shows in the payments.
pub payments_of-update_order :
    (id j : Text) (f : Order → Order) (db : Db)
    → payments_of j (update_order id f db) ≡ payments_of j db
unfolding payments_of update_order
payments_of-update_order id j f db = refl

-- No payment shows in the orders.
pub find_order-insert_payments :
    (org j : Text) (ps : List Payment) (db : Db)
    → find_order org j (insert_payments ps db) ≡ find_order org j db
unfolding find_order insert_payments
find_order-insert_payments org j ps db = refl

abbrev pub IsFor : Text → Payment → Type 0
IsFor id p = text_eq p.order_id id ≡ true

-- Rows that are all of one order are the rows of that order, and of no other.
pub filter-IsFor :
    (id : Text) (ps : List Payment)
    → All (IsFor id) ps
    → filter (λ p. text_eq p.order_id id) ps ≡ ps
filter-IsFor id [] h = refl
filter-IsFor id (p ∷ ps) (h, hs) = rw (h, filter-IsFor id ps hs)

pub filter-IsFor_ne :
    (id j : Text) (ps : List Payment)
    → j ≢ id
    → All (IsFor id) ps
    → filter (λ p. text_eq p.order_id j) ps ≡ []
filter-IsFor_ne id j [] ne h = refl
filter-IsFor_ne id j (p ∷ ps) ne (h, hs) =
    ground
      (arith, text_eq_iff p.order_id id, text_eq_iff p.order_id j, filter-IsFor_ne id j ps ne hs)

filter-All :
    (id : Text) (ps : List Payment) → All (IsFor id) (filter (λ p. text_eq p.order_id id) ps)
filter-All id [] = tt
filter-All id (p ∷ ps) = elim (Bool-cases (text_eq p.order_id id)) [
  | inl e ↦ rw e (e, filter-All id ps)
  | inr e ↦ rw e (filter-All id ps)
]

pub payments_of-IsFor : (id : Text) (db : Db) → All (IsFor id) (payments_of id db)
unfolding payments_of
payments_of-IsFor id db = filter-All id db.payments

-- ===== src/Register/Sync/Pending.antt =====
-- The rows of one order in the outbox, and what is left of them when rows are removed or changed.
use mathlib.Core.List.{append-nil}
use antd_platform.Prelude.{
  ◌≡◌, ◌⊎◌, inl, inr, refl, ap, ◌∙◌, arith, Bool, true, false, Bool-cases, List, [], ◌∷◌, ◌++◌, map,
  Text, text_eq, text_eq_iff, text_eq_refl, filter, All,
}
use antd_platform.Register.{OrderMutation}
use antd_platform.Register.Outbox.{is_not, remove, update_row}

abbrev pub of_order : Text → List OrderMutation → List OrderMutation
of_order j = filter (λ r. text_eq r.order_id j)

abbrev pub ids : List OrderMutation → List Text
ids = map (λ r. r.id)

abbrev pub IsFresh : OrderMutation → OrderMutation → Type 0
IsFresh m r = text_eq r.id m.id ≡ false

-- No two rows have the same id.
abbrev pub Distinct : List OrderMutation → Type 0
Distinct [] = Unit {0}
Distinct (m ∷ ms) = All (IsFresh m) ms × Distinct ms

-- A row with the id of the mutation is of its order.
abbrev pub Owns : OrderMutation → OrderMutation → Type 0
Owns m r = (text_eq r.id m.id ≡ false) ⊎ (r.order_id ≡ m.order_id)

abbrev pub Owned : List OrderMutation → List OrderMutation → Type 0
Owned rest rows = All (λ m. All (Owns m) rows) rest

-- A change of rows that keeps what they are and whose.
pub record KeepsNames (f : OrderMutation → OrderMutation) : Type 0 where
  pub id_kept : (r : OrderMutation) → (f r).id ≡ r.id
  pub order_kept : (r : OrderMutation) → (f r).order_id ≡ r.order_id

pub of_order-append :
    (j : Text) (xs ys : List OrderMutation) → of_order j (xs ++ ys) ≡ of_order j xs ++ of_order j ys
of_order-append j [] ys = refl
of_order-append j (x ∷ xs) ys = ground (arith, of_order-append j xs ys)

pub of_order-remove_ne :
    (j : Text) (m : OrderMutation) (rows : List OrderMutation)
    → text_eq m.order_id j ≡ false
    → All (Owns m) rows
    → of_order j (remove m.id rows) ≡ of_order j rows
unfolding remove
of_order-remove_ne j m [] h a = refl
of_order-remove_ne j m (r ∷ rows) h (inl e, a) =
    rw e (ground (arith, of_order-remove_ne j m rows h a))
of_order-remove_ne j m (r ∷ rows) h (inr e, a) =
    ground (arith, ap (λ t. text_eq t j) e, of_order-remove_ne j m rows h a)

-- A changed row of another order is not among the rows of this one.
pub of_order-update_row_ne :
    (f : OrderMutation → OrderMutation) (keeps : KeepsNames f) (j : Text) (m : OrderMutation)
    (rows : List OrderMutation)
    → text_eq m.order_id j ≡ false
    → All (Owns m) rows
    → of_order j (map (update_row m.id f) rows) ≡ of_order j rows
of_order-update_row_ne f keeps j m [] h a = refl
of_order-update_row_ne f keeps j m (r ∷ rows) h (inl e, a) =
    rw e (ground (arith, of_order-update_row_ne f keeps j m rows h a))
of_order-update_row_ne f keeps j m (r ∷ rows) h (inr e, a) = ground (
  arith,
  keeps.order_kept r,
  ap (λ t. text_eq t j) e,
  of_order-update_row_ne f keeps j m rows h a,
)

filter-swap :
    (p q : OrderMutation → Bool) (rows : List OrderMutation)
    → filter p (filter q rows) ≡ filter q (filter p rows)
filter-swap p q [] = refl
filter-swap p q (r ∷ rows) = ground (arith, filter-swap p q rows)

remove_fresh :
    (m : OrderMutation) (j : Text) (rest : List OrderMutation)
    → All (IsFresh m) rest
    → remove m.id (of_order j rest) ≡ of_order j rest
unfolding remove
remove_fresh m j [] a = refl
remove_fresh m j (r ∷ rest) (a, more) = ground (arith, remove_fresh m j rest more)

remove_first :
    (m : OrderMutation) (rows : List OrderMutation) → remove m.id (m ∷ rows) ≡ remove m.id rows
unfolding remove
remove_first m rows = rw (text_eq_refl m.id)

of_order-remove :
    (j id : Text) (rows : List OrderMutation)
    → of_order j (remove id rows) ≡ remove id (of_order j rows)
unfolding remove
of_order-remove j id rows = filter-swap (λ r. text_eq r.order_id j) (is_not id) rows

-- The first of the rows of an order is removed: the rest stay.
pub of_order-remove_first :
    (j : Text) (m : OrderMutation) (rest rows : List OrderMutation)
    → of_order j rows ≡ m ∷ of_order j rest
    → All (IsFresh m) rest
    → of_order j (remove m.id rows) ≡ of_order j rest
of_order-remove_first j m rest rows h a =
    of_order-remove j m.id rows
    ∙ ap (remove m.id) h
    ∙ remove_first m (of_order j rest)
    ∙ remove_fresh m j rest a

pub update_row-KeepsNames :
    (id : Text) (f : OrderMutation → OrderMutation) → KeepsNames f → KeepsNames (update_row id f)
update_row-KeepsNames id f keeps = record {
  id_kept = λ r. ground (arith, keeps.id_kept r);
  order_kept = λ r. ground (arith, keeps.order_kept r);
}

module _ (f : OrderMutation → OrderMutation) (keeps : KeepsNames f) where
  pub ids-of_order-map :
      (j : Text) (rows : List OrderMutation) → ids (of_order j (map f rows)) ≡ ids (of_order j rows)
  ids-of_order-map j [] = refl
  ids-of_order-map j (r ∷ rows) =
      ground (arith, keeps.id_kept r, keeps.order_kept r, ids-of_order-map j rows)

  Owns-map :
      (m : OrderMutation) (rows : List OrderMutation)
      → All (Owns m) rows
      → All (Owns m) (map f rows)
  Owns-map m [] a = tt
  Owns-map m (r ∷ rows) (inl e, a) = (inl (rw (keeps.id_kept r) e), Owns-map m rows a)
  Owns-map m (r ∷ rows) (inr e, a) = (inr (keeps.order_kept r ∙ e), Owns-map m rows a)

  pub Owned-map : (rest rows : List OrderMutation) → Owned rest rows → Owned rest (map f rows)
  Owned-map [] rows a = tt
  Owned-map (m ∷ rest) rows (a, more) = (Owns-map m rows a, Owned-map rest rows more)

Owns-filter :
    (p : OrderMutation → Bool) (m : OrderMutation) (rows : List OrderMutation)
    → All (Owns m) rows
    → All (Owns m) (filter p rows)
Owns-filter p m [] a = tt
Owns-filter p m (r ∷ rows) (a, more) = elim (Bool-cases (p r)) [
  | inl e ↦ rw e (a, Owns-filter p m rows more)
  | inr e ↦ rw e (Owns-filter p m rows more)
]

pub Owned-remove :
    (id : Text) (rest rows : List OrderMutation) → Owned rest rows → Owned rest (remove id rows)
unfolding remove
Owned-remove id [] rows a = tt
Owned-remove id (m ∷ rest) rows (a, more) =
    (Owns-filter (is_not id) m rows a, Owned-remove id rest rows more)

fresh-Owns :
    (m : OrderMutation) (rows : List OrderMutation) → All (IsFresh m) rows → All (Owns m) rows
fresh-Owns m [] a = tt
fresh-Owns m (r ∷ rows) (a, more) = (inl a, fresh-Owns m rows more)

-- Another row among them, which none of the rows shares its id with.
Owned-cons :
    (x : OrderMutation) (rest rows : List OrderMutation)
    → All (IsFresh x) rest
    → Owned rest rows
    → Owned rest (x ∷ rows)
Owned-cons x [] rows a o = tt
Owned-cons x (m ∷ rest) rows (a, more) (o, others) =
    let e : text_eq x.id m.id ≡ false =
      ground (arith, text_eq_iff x.id m.id, text_eq_iff m.id x.id) in
    ((inl e, o), Owned-cons x rest rows more others)

-- Rows with ids of their own are each owned by its mutation only.
pub Distinct-Owned : (rows : List OrderMutation) → Distinct rows → Owned rows rows
Distinct-Owned [] d = tt
Distinct-Owned (m ∷ rows) (a, d) =
    ((inr refl, fresh-Owns m rows a), Owned-cons m rows rows a (Distinct-Owned rows d))

-- The next row of an order goes over to the delivered ones.
pub ids-of_order-move :
    (j : Text) (m : OrderMutation) (delivered rows rows' : List OrderMutation)
    → text_eq m.order_id j ≡ true
    → of_order j rows ≡ m ∷ of_order j rows'
    → ids (of_order j (delivered ++ m ∷ [])) ++ ids (of_order j rows')
      ≡ ids (of_order j delivered) ++ ids (of_order j rows)
ids-of_order-move j m [] rows rows' e h = rw (e, h)
ids-of_order-move j m (r ∷ rs) rows rows' e h =
    ground (arith, ids-of_order-move j m rs rows rows' e h)

-- A row of another order changes nothing there.
pub of_order-append_ne :
    (j : Text) (m : OrderMutation) (delivered : List OrderMutation)
    → text_eq m.order_id j ≡ false
    → of_order j (delivered ++ m ∷ []) ≡ of_order j delivered
of_order-append_ne j m delivered e =
    of_order-append j delivered (m ∷ []) ∙ rw e (append-nil (of_order j delivered))

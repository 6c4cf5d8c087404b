-- ===== src/Register/Outbox/Laws.antt =====
-- The order in which the outbox is read does not depend on what was removed, parked or counted.
use antd_platform.Prelude.{
  ℕ, ◌≤◌, ◌≡◌, refl, sym, ap, ◌∙◌, arith, Bool, true, false, inl, inr, Bool-cases, List, [], ◌∷◌,
  ◌++◌, map, Text, filter, leb, All,
}
use antd_platform.Register.{OrderMutation, Work}
use antd_platform.Register.Outbox.{insert_row, list_pending, remove, is_not, enqueue}

abbrev pub NotBefore : OrderMutation → OrderMutation → Type 0
NotBefore r x = r.created_at ≤ x.created_at

abbrev pub IsSorted : List OrderMutation → Type 0
IsSorted [] = Unit {0}
IsSorted (x ∷ xs) = All (NotBefore x) xs × IsSorted xs

All_mono :
    (r x : OrderMutation) (xs : List OrderMutation)
    → NotBefore r x
    → All (NotBefore x) xs
    → All (NotBefore r) xs
All_mono r x [] h a = tt
All_mono r x (y ∷ ys) h (a, rest) = (omega arith, All_mono r x ys h rest)

All-insert_row :
    (r x : OrderMutation) (xs : List OrderMutation)
    → NotBefore r x
    → All (NotBefore r) xs
    → All (NotBefore r) (insert_row x xs)
unfolding insert_row
All-insert_row r x [] h a = (h, tt)
All-insert_row r x (y ∷ ys) h (a, rest) = elim (Bool-cases (leb x.created_at y.created_at)) [
  | inl e ↦ rw e (h, (a, rest))
  | inr e ↦ rw e (a, All-insert_row r x ys h rest)
]

insert_row-IsSorted :
    (r : OrderMutation) (xs : List OrderMutation) → IsSorted xs → IsSorted (insert_row r xs)
unfolding insert_row
insert_row-IsSorted r [] s = (tt, tt)
insert_row-IsSorted r (x ∷ xs) (a, s) = elim (Bool-cases (leb r.created_at x.created_at)) [
  | inl e ↦ let h : NotBefore r x = ground arith in rw e ((h, All_mono r x xs h a), (a, s))
  | inr e ↦
      let h : NotBefore x r = ground arith in
      rw e (All-insert_row x r xs h a, insert_row-IsSorted r xs s)
]

pub list_pending-IsSorted : (outbox : List OrderMutation) → IsSorted (list_pending outbox)
unfolding list_pending
list_pending-IsSorted [] = tt
list_pending-IsSorted (r ∷ rs) = insert_row-IsSorted r (list_pending rs) (list_pending-IsSorted rs)

insert_first :
    (r : OrderMutation) (xs : List OrderMutation) → All (NotBefore r) xs → insert_row r xs ≡ r ∷ xs
unfolding insert_row
insert_first r [] a = refl
insert_first r (x ∷ xs) (a, rest) = ground arith

All-filter :
    (p : OrderMutation → Bool) (r : OrderMutation) (xs : List OrderMutation)
    → All (NotBefore r) xs
    → All (NotBefore r) (filter p xs)
All-filter p r [] a = tt
All-filter p r (x ∷ xs) (a, rest) = elim (Bool-cases (p x)) [
  | inl e ↦ rw e (a, All-filter p r xs rest)
  | inr e ↦ rw e (All-filter p r xs rest)
]

filter-insert_row_kept :
    (p : OrderMutation → Bool) (r : OrderMutation) (xs : List OrderMutation)
    → IsSorted xs
    → p r ≡ true
    → filter p (insert_row r xs) ≡ insert_row r (filter p xs)
unfolding insert_row
filter-insert_row_kept p r [] s k = rw k
filter-insert_row_kept p r (x ∷ xs) (a, s) k = elim (Bool-cases (leb r.created_at x.created_at)) [
  | inl e ↦
      let h : NotBefore r x = ground arith in
      let all : All (NotBefore r) (x ∷ xs) = (h, All_mono r x xs h a) in
      rw (e, k) (sym (insert_first r (filter p (x ∷ xs)) (All-filter p r (x ∷ xs) all)))
  | inr e ↦ ground (arith, filter-insert_row_kept p r xs s k)
]

filter-insert_row_dropped :
    (p : OrderMutation → Bool) (r : OrderMutation) (xs : List OrderMutation)
    → p r ≡ false
    → filter p (insert_row r xs) ≡ filter p xs
unfolding insert_row
filter-insert_row_dropped p r [] k = rw k
filter-insert_row_dropped p r (x ∷ xs) k = ground (arith, filter-insert_row_dropped p r xs k)

pub list_pending-filter :
    (p : OrderMutation → Bool) (outbox : List OrderMutation)
    → list_pending (filter p outbox) ≡ filter p (list_pending outbox)
unfolding list_pending
list_pending-filter p [] = refl
list_pending-filter p (r ∷ rs) = elim (Bool-cases (p r)) [
  | inl e ↦ rw e (
      ap (insert_row r) (list_pending-filter p rs)
      ∙ sym (filter-insert_row_kept p r (list_pending rs) (list_pending-IsSorted rs) e))
  | inr e ↦
      rw e (list_pending-filter p rs ∙ sym (filter-insert_row_dropped p r (list_pending rs) e))
]

-- A removed row leaves the others as they were read.
pub list_pending-remove :
    (id : Text) (outbox : List OrderMutation)
    → list_pending (remove id outbox) ≡ remove id (list_pending outbox)
unfolding remove
list_pending-remove id outbox = list_pending-filter (is_not id) outbox

abbrev pub KeepsTime : (OrderMutation → OrderMutation) → Type 0
KeepsTime f = (r : OrderMutation) → (f r).created_at ≡ r.created_at

map-insert_row :
    (f : OrderMutation → OrderMutation) (keeps : KeepsTime f) (r : OrderMutation)
    (xs : List OrderMutation)
    → map f (insert_row r xs) ≡ insert_row (f r) (map f xs)
unfolding insert_row
map-insert_row f keeps r [] = refl
map-insert_row f keeps r (x ∷ xs) = ground (arith, keeps r, keeps x, map-insert_row f keeps r xs)

-- So does a change of rows that keeps their times.
pub list_pending-map :
    (f : OrderMutation → OrderMutation) (keeps : KeepsTime f) (outbox : List OrderMutation)
    → list_pending (map f outbox) ≡ map f (list_pending outbox)
unfolding list_pending
list_pending-map f keeps [] = refl
list_pending-map f keeps (r ∷ rs) =
    ap (insert_row (f r)) (list_pending-map f keeps rs)
    ∙ sym (map-insert_row f keeps r (list_pending rs))

insert_row-ne_nil : (r : OrderMutation) (xs : List OrderMutation) → insert_row r xs ≡ [] → ⊥
unfolding insert_row
insert_row-ne_nil r [] h = cc
insert_row-ne_nil r (x ∷ xs) h = ground arith

pub list_pending-nil : (outbox : List OrderMutation) → list_pending outbox ≡ [] → outbox ≡ []
unfolding list_pending
list_pending-nil [] h = refl
list_pending-nil (r ∷ rs) h = absurd (insert_row-ne_nil r (list_pending rs) h)

insert_row-append :
    (r x : OrderMutation) (xs : List OrderMutation)
    → NotBefore r x
    → insert_row r (xs ++ x ∷ []) ≡ insert_row r xs ++ x ∷ []
unfolding insert_row
insert_row-append r x [] h = ground arith
insert_row-append r x (y ∷ ys) h = ground (arith, insert_row-append r x ys h)

abbrev pub NotAfter : ℕ → OrderMutation → Type 0
NotAfter now r = r.created_at ≤ now

-- A row that is queued no earlier than the others is read last.
pub list_pending-enqueue :
    (now : ℕ) (id order_id : Text) (work : Work) (outbox : List OrderMutation)
    → All (NotAfter now) outbox
    → list_pending (enqueue now id order_id work outbox)
      ≡ list_pending outbox ++ enqueue now id order_id work []
unfolding list_pending enqueue insert_row
list_pending-enqueue now id order_id work [] h = refl
list_pending-enqueue now id order_id work (r ∷ rs) (h, hs) =
    ap (insert_row r) (list_pending-enqueue now id order_id work rs hs)
    ∙ insert_row-append r _ (list_pending rs) h

-- ===== src/Register/Outbox.antt =====
-- apps/pos/src/db/mutationsRepo.ts: the table of mutations that are owed to the server.
pub mod Laws
use antd_platform.Prelude.{
  ℕ, ◌+◌, Bool, true, false, not, Option, none, some, List, [], ◌∷◌, ◌++◌, map, Text, text_eq,
  filter, any, length, is_some, if◌then◌else◌, leb, ◌&&◌,
}
use antd_platform.Register.{OrderMutation, Work}

-- The row goes in with no attempt behind it. Its id is drawn by `newId`.
unfoldable pub enqueue : ℕ → Text → Text → Work → List OrderMutation → List OrderMutation
enqueue now id order_id work outbox =
    outbox
    ++ record {
      id = id;
      order_id = order_id;
      work = work;
      created_at = now;
      attempts = 0;
      last_error = none;
    }
      ∷ []

-- `ORDER BY created_at ASC, rowid ASC`, by insertion: the table is in the order of its row ids.
unfoldable pub insert_row : OrderMutation → List OrderMutation → List OrderMutation
insert_row r [] = r ∷ []
insert_row r (x ∷ xs) =
    let rest = insert_row r xs in if leb r.created_at x.created_at then r ∷ x ∷ xs else x ∷ rest

unfoldable pub list_pending : List OrderMutation → List OrderMutation
unfolding insert_row
list_pending [] = []
list_pending (r ∷ rs) = insert_row r (list_pending rs)

-- `COUNT(DISTINCT order_id)`: a row counts unless a later one is of the same order.
unfoldable pub distinct_orders : List OrderMutation → ℕ
distinct_orders [] = 0
distinct_orders (r ∷ rs) =
    let rest = distinct_orders rs in
    if any (λ x. text_eq x.order_id r.order_id) rs then rest else rest + 1

unfoldable pub count_pending_orders : List OrderMutation → ℕ
unfolding distinct_orders
count_pending_orders outbox = distinct_orders (filter (λ r. not (is_some r.last_error)) outbox)

unfoldable pub count_failed : List OrderMutation → ℕ
unfolding distinct_orders
count_failed outbox = distinct_orders (filter (λ r. is_some r.last_error) outbox)

abbrev pub is_not : Text → OrderMutation → Bool
is_not id r = not (text_eq r.id id)

unfoldable pub remove : Text → List OrderMutation → List OrderMutation
remove id = filter (is_not id)

-- `UPDATE order_mutations SET … WHERE id = ?`.
abbrev pub update_row : Text → (OrderMutation → OrderMutation) → OrderMutation → OrderMutation
update_row id f r = if text_eq r.id id then f r else r

unfoldable pub park : Text → OrderMutation → OrderMutation
park message r = record r { last_error = some message; attempts = r.attempts + 1 }

unfoldable pub mark_failed : Text → Text → List OrderMutation → List OrderMutation
unfolding park
mark_failed id message = map (update_row id (park message))

unfoldable pub bump : OrderMutation → OrderMutation
bump r = record r { attempts = r.attempts + 1 }

unfoldable pub bump_attempts : Text → List OrderMutation → List OrderMutation
unfolding bump
bump_attempts id = map (update_row id bump)

-- `UPDATE … WHERE order_id = ?`.
unfoldable pub unpark : Text → OrderMutation → OrderMutation
unpark order_id r = if text_eq r.order_id order_id then record r { last_error = none } else r

unfoldable pub requeue_for_order : Text → List OrderMutation → List OrderMutation
unfolding unpark
requeue_for_order order_id = map (unpark order_id)

unfoldable pub remove_for_order : Text → List OrderMutation → List OrderMutation
remove_for_order order_id = filter (λ r. not (text_eq r.order_id order_id))

-- ===== src/Register/Drawer.antt =====
-- apps/pos/src/db/drawerRepo.ts: the sessions of the cash drawer, and the sales that they count. The clock
-- and new ids are arguments; times are numbers. Of two rows with the same time the first one in the table
-- is taken as the newer, where the source leaves the order open.
pub mod Laws
pub mod Tabs
use antd_platform.Prelude.{
  ℕ, ◌+◌, Bool, true, false, ◌&&◌, Option, none, some, List, [], ◌∷◌, ◌++◌, map, Text, text_eq,
  codes, filter, sum_of, is_some, get_or, ltb, leb, if◌then◌else◌,
}
use antd_platform.Prelude.Int.{ℤ, pos, ◌-ℤ◌}
use antd_platform.Register.{
  LocalOrder, LocalOrderStatus, held, open_tab, pending_sync, synced, failed, incoming,
}

pub record DrawerSession : Type 0 where
  pub id : Text
  pub is_open : Bool
  pub opened_at : ℕ
  pub closed_at : Option ℕ
  pub opening_amount : ℕ
  pub cash_sales : ℕ
  pub other_sales : ℕ
  pub expected_amount : Option ℕ
  pub counted_amount : Option ℕ
  pub difference : Option ℤ
  pub remarks : Option Text

unfoldable pub newer : DrawerSession → Option DrawerSession → DrawerSession
newer s none = s
newer s (some t) = if ltb s.opened_at t.opened_at then t else s

-- The open session that was opened last.
unfoldable pub get_open_session : List DrawerSession → Option DrawerSession
unfolding newer
get_open_session [] = none
get_open_session (s ∷ ss) =
    let rest = get_open_session ss in if s.is_open then some (newer s rest) else rest

unfoldable pub open_session : ℕ → Text → ℕ → List DrawerSession → List DrawerSession
open_session now id opening_amount sessions =
    sessions
    ++ record {
      id = id;
      is_open = true;
      opened_at = now;
      closed_at = none;
      opening_amount = opening_amount;
      cash_sales = 0;
      other_sales = 0;
      expected_amount = none;
      counted_amount = none;
      difference = none;
      remarks = none;
    }
      ∷ []

-- An order that went through the payment flow.
unfoldable pub was_placed : LocalOrderStatus → Bool
was_placed pending_sync = true
was_placed synced = true
was_placed failed = true
was_placed held = false
was_placed open_tab = false
was_placed incoming = false

unfoldable pub is_paid : LocalOrder → Bool
unfolding was_placed
is_paid o = was_placed o.status && is_some o.payment_method

unfoldable pub is_cash : Option Text → Bool
is_cash none = false
is_cash (some method) = text_eq method (codes "cash")

pub record Sales : Type 0 where
  pub cash_sales : ℕ
  pub other_sales : ℕ

unfoldable pub cash_amount : LocalOrder → ℕ
unfolding is_cash
cash_amount o = if is_cash o.payment_method then o.total_amount else 0

unfoldable pub other_amount : LocalOrder → ℕ
unfolding is_cash
other_amount o = if is_cash o.payment_method then 0 else o.total_amount

abbrev pub sums : List LocalOrder → Sales
sums orders = record {
  cash_sales = sum_of cash_amount orders;
  other_sales = sum_of other_amount orders;
}

unfoldable pub placed_since : ℕ → List LocalOrder → List LocalOrder
unfolding is_paid
placed_since since = filter (λ (o : LocalOrder). is_paid o && leb since o.created_at)

unfoldable pub is_of_day : Text → Option Text → Bool
is_of_day day none = false
is_of_day day (some d) = text_eq d day

unfoldable pub placed_on : Text → List LocalOrder → List LocalOrder
unfolding is_paid is_of_day
placed_on day = filter (λ (o : LocalOrder). is_paid o && is_of_day day o.business_day_id)

unfoldable pub sales_since : ℕ → List LocalOrder → Sales
unfolding placed_since cash_amount other_amount
sales_since since orders = sums (placed_since since orders)

unfoldable pub sales_for_business_day : Text → List LocalOrder → Sales
unfolding placed_on cash_amount other_amount
sales_for_business_day day orders = sums (placed_on day orders)

-- The session as it is closed, with the sales since it was opened.
unfoldable pub closed_session : ℕ → ℕ → Option Text → Sales → ℕ → DrawerSession → DrawerSession
closed_session now counted remarks sales expected s = record s {
  is_open = false;
  closed_at = some now;
  cash_sales = sales.cash_sales;
  other_sales = sales.other_sales;
  expected_amount = some expected;
  counted_amount = some counted;
  difference = some (pos counted -ℤ pos expected);
  remarks = remarks;
}

-- `UPDATE drawer_sessions SET … WHERE id = ?`.
unfoldable pub update_session :
    Text → (DrawerSession → DrawerSession) → List DrawerSession → List DrawerSession
update_session id f = map (λ (s : DrawerSession). if text_eq s.id id then f s else s)

-- The table afterwards and the session that is answered, where the open one has this id.
unfoldable pub close_session :
    ℕ
    → Text
    → ℕ
    → Option Text
    → List LocalOrder
    → List DrawerSession
    → Option (List DrawerSession × DrawerSession)
unfolding closed_session
close_session now id counted remarks orders sessions = elim (get_open_session sessions) [
  | none ↦ none
  | some s ↦
      let sales = sales_since s.opened_at orders in
      let close = closed_session now counted remarks sales (s.opening_amount + sales.cash_sales) in
      if text_eq s.id id then some (update_session id close sessions, close s) else none
]

pub record PaidOrderSummary : Type 0 where
  pub id : Text
  pub ticket_number : Option ℕ
  pub customer_name : Text
  pub total_amount : ℕ
  pub payment_method : Option Text
  pub created_at : ℕ

abbrev pub summary : LocalOrder → PaidOrderSummary
summary o = record {
  id = o.id;
  ticket_number = o.ticket_number;
  customer_name = o.customer_name;
  total_amount = o.total_amount;
  payment_method = o.payment_method;
  created_at = o.created_at;
}

-- `ORDER BY created_at DESC`.
unfoldable pub insert_newest : LocalOrder → List LocalOrder → List LocalOrder
insert_newest o [] = o ∷ []
insert_newest o (p ∷ ps) =
    let rest = insert_newest o ps in if ltb o.created_at p.created_at then p ∷ rest else o ∷ p ∷ ps

unfoldable pub newest_first : List LocalOrder → List LocalOrder
unfolding insert_newest
newest_first [] = []
newest_first (o ∷ os) = insert_newest o (newest_first os)

unfoldable pub paid_orders_since : ℕ → List LocalOrder → List PaidOrderSummary
unfolding placed_since newest_first
paid_orders_since since orders = map summary (newest_first (placed_since since orders))

unfoldable pub paid_orders_for_business_day : Text → List LocalOrder → List PaidOrderSummary
unfolding placed_on newest_first
paid_orders_for_business_day day orders = map summary (newest_first (placed_on day orders))

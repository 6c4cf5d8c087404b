-- ===== src/Register/Drawer/Laws.antt =====
-- What closing a session of the drawer records.
use antd_platform.Prelude.{
  Bool, codes, if◌then◌else◌, filter, not, ℕ, ◌+◌, ◌≡◌, refl, sym, ◌∙◌, subst, arith, true, false,
  Bool-cases, Option, Option-cases, none, some, List, [], ◌∷◌, map, Text, text_eq, text_eq_iff,
  sum_of, All, inl, inr,
}
use antd_platform.Prelude.Int.{ℤ, pos, ◌+ℤ◌, int_laws}
use antd_platform.Register.{LocalOrder}
use antd_platform.Register.Drawer.{
  DrawerSession, newer, is_cash, get_open_session, cash_amount, other_amount, placed_since,
  sales_since, closed_session, update_session, close_session, PaidOrderSummary, summary,
  insert_newest, newest_first, paid_orders_since,
}

sums-total :
    (orders : List LocalOrder)
    → sum_of cash_amount orders + sum_of other_amount orders
      ≡ sum_of (λ (o : LocalOrder). o.total_amount) orders
unfolding cash_amount other_amount
sums-total [] = refl
sums-total (o ∷ os) = ground (arith, sums-total os)

-- Of the sale history, what was paid in cash.
abbrev pub in_cash : PaidOrderSummary → Bool
in_cash p = elim p.payment_method [ none ↦ false | some m ↦ text_eq m (codes "cash") ]

abbrev pub total_of : List PaidOrderSummary → ℕ
total_of = sum_of (λ (p : PaidOrderSummary). p.total_amount)

module _ (f : PaidOrderSummary → ℕ) where
  insert_newest-sum :
      (o : LocalOrder) (os : List LocalOrder)
      → sum_of f (map summary (insert_newest o os)) ≡ f (summary o) + sum_of f (map summary os)
  unfolding insert_newest
  insert_newest-sum o [] = refl
  insert_newest-sum o (p ∷ ps) = ground (arith, insert_newest-sum o ps)

  newest_first-sum :
      (os : List LocalOrder)
      → sum_of f (map summary (newest_first os)) ≡ sum_of (λ (o : LocalOrder). f (summary o)) os
  unfolding newest_first
  newest_first-sum [] = refl
  newest_first-sum (o ∷ os) =
      omega (arith, insert_newest-sum o (newest_first os), newest_first-sum os)

total_of-filter :
    (p : PaidOrderSummary → Bool) (xs : List PaidOrderSummary)
    → total_of (filter p xs) ≡ sum_of (λ s. if p s then s.total_amount else 0) xs
total_of-filter p [] = refl
total_of-filter p (x ∷ xs) = ground (arith, total_of-filter p xs)

cash_amount-sum :
    (os : List LocalOrder)
    → sum_of cash_amount os
      ≡ sum_of (λ (o : LocalOrder). if in_cash (summary o) then o.total_amount else 0) os
unfolding cash_amount is_cash
cash_amount-sum [] = refl
cash_amount-sum (o ∷ os) = elim (Option-cases o.payment_method) [
  | inl e ↦ rw e (omega (arith, cash_amount-sum os))
  | inr (m, e) ↦ rw e (omega (arith, cash_amount-sum os))
]

pub sales_since-listed :
    (since : ℕ) (orders : List LocalOrder)
    → (sales_since since orders).cash_sales + (sales_since since orders).other_sales
      ≡ total_of (paid_orders_since since orders)
unfolding sales_since paid_orders_since
sales_since-listed since orders =
    sums-total (placed_since since orders)
    ∙ sym (newest_first-sum (λ p. p.total_amount) (placed_since since orders))

pub sales_since-cash :
    (since : ℕ) (orders : List LocalOrder)
    → (sales_since since orders).cash_sales
      ≡ total_of (filter in_cash (paid_orders_since since orders))
unfolding sales_since paid_orders_since
sales_since-cash since orders =
    let os = placed_since since orders in
    cash_amount-sum os
    ∙ sym (newest_first-sum (λ p. if in_cash p then p.total_amount else 0) os)
    ∙ sym (total_of-filter in_cash (map summary (newest_first os)))

-- No session with this id is open.
abbrev pub IsShut : Text → List DrawerSession → Type 0
IsShut id = All (λ (s : DrawerSession). text_eq s.id id ≡ true → s.is_open ≡ false)

IsShut-open :
    (id : Text) (ss : List DrawerSession) (s : DrawerSession)
    → IsShut id ss
    → get_open_session ss ≡ some s
    → text_eq s.id id ≡ false
unfolding get_open_session newer
IsShut-open id [] s shut h = absurd (ground arith)
IsShut-open id (x ∷ ss) s (first, shut) h = elim (Option-cases (get_open_session ss)) [
  | inl e ↦ elim (Bool-cases (text_eq x.id id)) [
    | inl t ↦ ground (arith, first t)
    | inr f ↦ ground arith
  ]
  | inr (y, e) ↦
      let apart : text_eq y.id id ≡ false = IsShut-open id ss y shut e in
      elim (Bool-cases (text_eq x.id id)) [ inl t ↦ ground (arith, first t) | inr f ↦ ground arith ]
]

update_session-IsShut :
    (id : Text) (f : DrawerSession → DrawerSession) (ss : List DrawerSession)
    → ((s : DrawerSession) → (f s).is_open ≡ false)
    → IsShut id (update_session id f ss)
unfolding update_session
update_session-IsShut id f [] shuts = tt
update_session-IsShut id f (s ∷ ss) shuts =
    let rest = update_session-IsShut id f ss shuts in
    elim (Bool-cases (text_eq s.id id)) [
      | inl t ↦ (λ e. ground (arith, shuts s), rest)
      | inr e ↦ (λ t. absurd (ground arith), rest)
    ]

update_session-others :
    (id : Text) (f : DrawerSession → DrawerSession) (ss : List DrawerSession)
    → ((s : DrawerSession) → (f s).id ≡ s.id)
    → filter (λ (s : DrawerSession). not (text_eq s.id id)) (update_session id f ss)
      ≡ filter (λ (s : DrawerSession). not (text_eq s.id id)) ss
unfolding update_session
update_session-others id f [] keeps = refl
update_session-others id f (s ∷ ss) keeps =
    ground (arith, keeps s, update_session-others id f ss keeps)

-- What closing a session records.
pub record Closed (now : ℕ) (id : Text) (counted : ℕ) (orders : List LocalOrder)
    (sessions sessions' : List DrawerSession) (s : DrawerSession) : Type 0 where
  pub was : DrawerSession
  pub was_the_open : get_open_session sessions ≡ some was
  pub id_is : was.id ≡ id
  pub is_closed : s.is_open ≡ false
  pub closed_now : s.closed_at ≡ some now
  pub expected : ℕ
  pub expected_is : s.expected_amount ≡ some expected
  pub expected_sum : expected ≡ was.opening_amount + s.cash_sales
  pub difference : ℤ
  pub difference_is : s.difference ≡ some difference
  pub counted_sum : pos counted ≡ pos expected +ℤ difference
  pub cash_listed :
      s.cash_sales ≡ total_of (filter in_cash (paid_orders_since was.opened_at orders))
  pub sales_listed :
      s.cash_sales + s.other_sales ≡ total_of (paid_orders_since was.opened_at orders)
  pub shut : IsShut id sessions'
  pub others_kept :
      filter (λ (s : DrawerSession). not (text_eq s.id id)) sessions'
      ≡ filter (λ (s : DrawerSession). not (text_eq s.id id)) sessions

pub close_session-Closed :
    (now : ℕ) (id : Text) (counted : ℕ) (remarks : Option Text) (orders : List LocalOrder)
    (sessions sessions' : List DrawerSession) (s : DrawerSession)
    → close_session now id counted remarks orders sessions ≡ some (sessions', s)
    → Closed now id counted orders sessions sessions' s
unfolding close_session closed_session
close_session-Closed now id counted remarks orders sessions sessions' s h =
    elim (Option-cases (get_open_session sessions)) [
      | inl e ↦ absurd (ground arith)
      | inr (o, e) ↦
          let sales = sales_since o.opened_at orders in
          let close =
            closed_session now counted remarks sales (o.opening_amount + sales.cash_sales) in
          elim (Bool-cases (text_eq o.id id)) [
            | inr f ↦ absurd (ground arith)
            | inl t ↦
                let rows : update_session id close sessions ≡ sessions' = ground arith in
                let answer : close o ≡ s = ground arith in
                subst (Closed now id counted orders sessions sessions') answer (
                  subst (λ ss. Closed now id counted orders sessions ss (close o)) rows
                    (record {
                      was = o;
                      was_the_open = e;
                      id_is = (text_eq_iff o.id id).0 t;
                      is_closed = refl;
                      closed_now = refl;
                      expected = o.opening_amount + sales.cash_sales;
                      expected_is = refl;
                      expected_sum = refl;
                      difference = _;
                      difference_is = refl;
                      counted_sum = omega int_laws;
                      cash_listed = sales_since-cash o.opened_at orders;
                      sales_listed = sales_since-listed o.opened_at orders;
                      shut = update_session-IsShut id close sessions (λ s. refl);
                      others_kept = update_session-others id close sessions (λ s. refl);
                    }))
          ]
    ]

-- A session that was closed cannot be closed again, whatever is counted then and whatever was sold since.
pub close_session_once :
    (now now' : ℕ) (id : Text) (counted counted' : ℕ) (remarks remarks' : Option Text)
    (orders orders' : List LocalOrder) (sessions sessions' : List DrawerSession) (s : DrawerSession)
    → close_session now id counted remarks orders sessions ≡ some (sessions', s)
    → close_session now' id counted' remarks' orders' sessions' ≡ none
unfolding close_session
close_session_once now now' id counted counted' remarks remarks' orders orders' sessions sessions' s
      h =
    let shut : IsShut id sessions' =
      (close_session-Closed now id counted remarks orders sessions sessions' s h).shut in
    elim (Option-cases (get_open_session sessions')) [
      | inl e ↦ ground arith
      | inr (o, e) ↦ ground (arith, IsShut-open id sessions' o shut e)
    ]

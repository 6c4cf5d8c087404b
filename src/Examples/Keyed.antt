-- ===== src/Examples/Keyed.antt =====
-- A cache as a list, and a keyed partial refund and its retry.
use antd_platform.Prelude.{
  ◌≡◌, ◌≢◌, refl, arith, Option, none, some, List, [], ◌∷◌, Text, text_eq, text_eq_iff,
  text_eq_refl, codes, ok, err, if◌then◌else◌,
}
use antd_platform.Prelude.Int.{neg, ◌+ℤ◌, ℤ, pos}
use antd_platform.Database.{insert_payments, payments_of, find_order}
use antd_platform.Idempotency.{Entry, Cache, key_of, failed, with_idempotency}
use antd_platform.Idempotency.Laws.{with_idempotency_retry}
use antd_platform.Orders.Payment.{paid_sum_for, order_for_update, exceeds_balance}
use antd_platform.Orders.Payment.Refund.{refund_method, refund_partial_order}
use antd_platform.Orders.Payment.Keyed.{
  refund_and_answer, refund_partial_request, refund_partial_request_once,
}
use antd_platform.Examples.Fixtures.{acme, tab, paid_db, partly_refunded_db}

abbrev Rows : Type 0
Rows = List (Text × Entry ℤ)

abbrev row_of : Text → Rows → Option (Entry ℤ)
row_of k [] = none
row_of k ((j, e) ∷ rows) = if text_eq j k then some e else row_of k rows

abbrev without : Text → Rows → Rows
without k [] = []
without k ((j, e) ∷ rows) = let rest = without k rows in if text_eq j k then rest else (j, e) ∷ rest

row_of-set : (k : Text) (e : Entry ℤ) (rows : Rows) → row_of k ((k, e) ∷ rows) ≡ some e
row_of-set k e rows = ground (arith, text_eq_refl k)

row_of-set_other :
    (j k : Text) (e : Entry ℤ) (rows : Rows) → j ≢ k → row_of j ((k, e) ∷ rows) ≡ row_of j rows
row_of-set_other j k e rows h = ground (arith, text_eq_iff k j)

row_of-without : (k : Text) (rows : Rows) → row_of k (without k rows) ≡ none
row_of-without k [] = refl
row_of-without k ((j, e) ∷ rows) = ground (arith, row_of-without k rows)

row_of-without_other :
    (j k : Text) (rows : Rows) → j ≢ k → row_of j (without k rows) ≡ row_of j rows
row_of-without_other j k [] h = refl
row_of-without_other j k ((i, e) ∷ rows) h =
    ground (arith, row_of-without_other j k rows h, text_eq_iff i k, text_eq_iff i j)

abbrev rows_cache : Cache Rows ℤ
rows_cache = record {
  get = row_of;
  set = λ k e rows. (k, e) ∷ rows;
  del = without;
  get-set = row_of-set;
  get-set_other = row_of-set_other;
  get-del = row_of-without;
  get-del_other = row_of-without_other;
}

partly_refunded :
    refund_partial_order acme tab (some (codes "bob")) (pos 500) paid_db ≡ ok partly_refunded_db
unfolding refund_partial_order order_for_update find_order text_eq paid_sum_for payments_of ◌+ℤ◌
    insert_payments refund_method neg
partly_refunded = refl

refund_partial_request_once_example :
    let first =
      refund_partial_request rows_cache acme tab
        (some (codes "bob"))
        (pos 500)
        (some (codes "k1"))
        paid_db
        [] in
    (first.1 ≡ ok (partly_refunded_db, pos 500))
    × (refund_partial_request rows_cache acme tab
          (some (codes "bob"))
          (pos 700)
          (some (codes "k1"))
          partly_refunded_db
          first.0
        ≡ (first.0, ok (partly_refunded_db, pos 500)))
refund_partial_request_once_example =
    refund_partial_request_once rows_cache acme tab (some (codes "bob")) (some (codes "bob"))
      (pos 500) (pos 700) 107 (49 ∷ []) paid_db partly_refunded_db [] refl partly_refunded

too_much : refund_and_answer acme tab (some (codes "bob")) (pos 9000) paid_db ≡ err exceeds_balance
unfolding refund_and_answer refund_partial_order order_for_update find_order text_eq paid_sum_for
    payments_of ◌+ℤ◌
too_much = refl

with_idempotency_retry_example :
    let first =
      with_idempotency rows_cache
        (codes "refund-partial")
        (some (codes "k1"))
        (refund_and_answer acme tab (some (codes "bob")) (pos 9000))
        paid_db
        [] in
    (first.1 ≡ err (failed exceeds_balance))
    × (row_of (key_of (codes "refund-partial") (codes "k1")) first.0 ≡ none)
with_idempotency_retry_example =
    with_idempotency_retry rows_cache (codes "refund-partial") 107 (49 ∷ [])
      (refund_and_answer acme tab (some (codes "bob")) (pos 9000)) paid_db exceeds_balance [] refl
      too_much

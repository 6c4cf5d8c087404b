-- ===== src/Orders/Payment/Keyed.antt =====
-- order-payment.service.ts, `refundPartialOrder` with its Idempotency-Key: the transaction of the refund,
-- wrapped. The answer names the refunded amount.
use antd_platform.Prelude.{ℕ, ◌∷◌, ◌≡◌, none, some, ok, ◌>>=◌, Option, Text, codes, Result}
use antd_platform.Prelude.Int.{ℤ}
use antd_platform.Database.{Db}
use antd_platform.Idempotency.{Cache, KeyedError, key_of, with_idempotency}
use antd_platform.Idempotency.Laws.{with_idempotency_once}
use antd_platform.Orders.Payment.{PaymentError}
use antd_platform.Orders.Payment.Refund.{refund_partial_order}

unfoldable pub refund_and_answer : Text → Text → Option Text → ℤ → Db → Result PaymentError (Db × ℤ)
refund_and_answer org id pin_holder amount db =
    refund_partial_order org id pin_holder amount db >>= λ after. ok (after, amount)

unfoldable pub refund_partial_request :
    {S : Type 0}
    → Cache S ℤ
    → Text
    → Text
    → Option Text
    → ℤ
    → Option Text
    → Db
    → S
    → S × Result (KeyedError PaymentError) (Db × ℤ)
refund_partial_request cache org id pin_holder amount key db s =
    with_idempotency cache (codes "refund-partial") key (refund_and_answer org id pin_holder amount)
      db s

-- Once a partial refund with a fresh key went through, a retry with the key refunds nothing more, whatever
-- amount it names: it gets the answer of the first, and leaves the tables and the cache as they are.
pub refund_partial_request_once :
    {S : Type 0} (cache : Cache S ℤ) (org id : Text) (pin_holder again : Option Text)
    (amount other : ℤ) (c : ℕ) (cs : Text) (db db' : Db) (s : S)
    → cache.get (key_of (codes "refund-partial") (c ∷ cs)) s ≡ none
    → refund_partial_order org id pin_holder amount db ≡ ok db'
    → let first = refund_partial_request cache org id pin_holder amount (some (c ∷ cs)) db s in
      (first.1 ≡ ok (db', amount))
      × (refund_partial_request cache org id again other (some (c ∷ cs)) db' first.0
          ≡ (first.0, ok (db', amount)))
unfolding refund_partial_request refund_and_answer
refund_partial_request_once cache org id pin_holder again amount other c cs db db' s fresh
      refunded =
    with_idempotency_once cache (codes "refund-partial") c cs
      (refund_and_answer org id pin_holder amount) (refund_and_answer org id again other) db db'
      amount s fresh (rw (refund_and_answer, refunded))

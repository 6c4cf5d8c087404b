-- ===== src/Idempotency.antt =====
-- apps/backend/src/common/services/idempotency.service.ts, and withIdempotency of
-- apps/backend/src/orders/order-payment.service.ts: a request with a key runs once. The cache is Redis
-- behind cache-manager, which is not in the repository: it is a parameter with the laws of a store.
-- Entries live for a day, and what is said here is within that day. The wrapped operation is a
-- transaction, which changes nothing when it throws.
pub mod Laws
use antd_platform.Prelude.{
  ℕ, ◌≡◌, ◌≢◌, Option, none, some, List, [], ◌∷◌, ◌++◌, Text, codes, Result, ok, err,
}
use antd_platform.Pricing.Discounts.{given}

-- What is kept under a key: a reservation, or an answer with its HTTP status.
pub data Entry (T : Type 0) : Type 0 where
  inflight : Entry T
  completed : ℕ → T → Entry T

-- A cache: what was set is read until it is set again or deleted.
pub record Cache (S : Type 0) (T : Type 0) : Type 0 where
  pub get : Text → S → Option (Entry T)
  pub set : Text → Entry T → S → S
  pub del : Text → S → S
  pub get-set : (k : Text) (e : Entry T) (s : S) → get k (set k e s) ≡ some e
  pub get-set_other : (j k : Text) (e : Entry T) (s : S) → j ≢ k → get j (set k e s) ≡ get j s
  pub get-del : (k : Text) (s : S) → get k (del k s) ≡ none
  pub get-del_other : (j k : Text) (s : S) → j ≢ k → get j (del k s) ≡ get j s

-- `${SCOPE_PREFIX}:${scope}:${k}`
unfoldable pub key_of : Text → Text → Text
key_of scope k = codes "idem:" ++ (scope ++ (codes ":" ++ k))

pub data KeyedError (E : Type 0) : Type 0 where
  already_in_flight : KeyedError E
  failed : E → KeyedError E

module _ {S T : Type 0} (cache : Cache S T) where
  -- Reserve the key unless it is there.
  unfoldable pub begin : Text → Text → S → Option S
  begin scope k s = elim (cache.get (key_of scope k) s) [
    | some e ↦ none
    | none ↦ some (cache.set (key_of scope k) inflight s)
  ]

  unfoldable pub complete : Text → Text → ℕ → T → S → S
  complete scope k status body s = cache.set (key_of scope k) (completed status body) s

  unfoldable pub replay : Text → Text → S → Option (ℕ × T)
  replay scope k s = elim (cache.get (key_of scope k) s) [
    | none ↦ none
    | some e ↦ elim e [ inflight ↦ none | completed status body ↦ some (status, body) ]
  ]

  unfoldable pub drop : Text → Text → S → S
  drop scope k s = cache.del (key_of scope k) s

  module _ {D E : Type 0} where
    -- The end of a reserved request: its answer is kept, or its reservation dropped.
    unfoldable pub finish : Text → Text → Result E (D × T) → S → S × Result (KeyedError E) (D × T)
    unfolding complete drop
    finish scope k (ok (d, body)) s = (complete scope k 200 body s, ok (d, body))
    finish scope k (err e) s = (drop scope k s, err (failed e))

    unfoldable pub without_key : Result E (D × T) → S → S × Result (KeyedError E) (D × T)
    without_key (ok r) s = (s, ok r)
    without_key (err e) s = (s, err (failed e))

    -- The cache afterwards, and the tables with the answer.
    unfoldable pub with_idempotency :
        Text → Option Text → (D → Result E (D × T)) → D → S → S × Result (KeyedError E) (D × T)
    unfolding begin replay
    with_idempotency scope key fn d s = elim (given key) [
      | none ↦ without_key (fn d) s
      | some k ↦ elim (replay scope k s) [
        | some answer ↦ (s, ok (d, answer.1))
        | none ↦ elim (begin scope k s) [
          | none ↦ (s, err already_in_flight)
          | some reserved ↦ finish scope k (fn d) reserved
        ]
      ]
    ]

-- ===== src/Register/Wire.antt =====
-- apps/pos/src/api/client.ts, as the synchronizer sees it: a request reaches the server or not, and its
-- answer reaches the register or not. The server is a parameter; what becomes of each request is a list,
-- and where the list ends the register is offline.
pub mod Backend
pub mod Retries
use antd_platform.Prelude.{ℕ, ◌≡◌, Option, List, [], ◌∷◌, ◌++◌, Text, Result, ok, err, codes}
use antd_platform.Prelude.Int.{ℤ}
use antd_platform.Cart.Delta.{DeltaItem}
use antd_platform.Orders.Create.{PosOrderDto}

-- createPosOrder, appendOrderItems, fireCourse and payOrder.
pub data Request : Type 0 where
  create_pos_order : PosOrderDto → Request
  append_order_items : Text → Text → List DeltaItem → Request
  fire_course : Text → ℕ → Text → Request
  pay_order : Text → Text → Option ℤ → Request

-- The id and the ticket number of the order, or an HTTP status of 400 or more with its message.
pub data Answer : Type 0 where
  accepted : Text → Option ℕ → Answer
  rejected : ℕ → Text → Answer

-- What becomes of a request. `response_lost` is a request that was handled and not heard of again.
pub data Fate : Type 0 where
  answered response_lost unreached : Fate

-- `ApiNetworkError` and `ApiRequestError`.
pub data CallError : Type 0 where
  network_error : Text → CallError
  request_error : ℕ → Text → CallError

pub record Server (S : Type 0) : Type 0 where
  pub handle : Request → S → S × Answer

-- The server's state, what becomes of the next requests, and what the server has handled so far.
pub record Wire (S : Type 0) : Type 0 where
  pub server : S
  pub fates : List Fate
  pub handled : List Request

pub data Reply (S : Type 0) : Type 0 where
  reply : Wire S → Result CallError (Text × Option ℕ) → Reply S

unfoldable pub heard : Answer → Result CallError (Text × Option ℕ)
heard (accepted id ticket) = ok (id, ticket)
heard (rejected status message) = err (request_error status message)

unfoldable pub no_answer : Result CallError (Text × Option ℕ)
no_answer = err (network_error (codes "Network request failed"))

module _ {S : Type 0} (server : Server S) where
  -- The wire after a request that the server handled.
  abbrev pub after_request : Request → List Fate → Wire S → Wire S
  after_request r fates w = record {
    server = (server.handle r w.server).0;
    fates = fates;
    handled = w.handled ++ r ∷ [];
  }

  -- One request with the fate that awaits it.
  unfoldable pub send : Fate → List Fate → Request → Wire S → Reply S
  unfolding heard no_answer
  send answered fates r w = reply (after_request r fates w) (heard (server.handle r w.server).1)
  send response_lost fates r w = reply (after_request r fates w) no_answer
  send unreached fates r w = reply (record w { fates = fates }) no_answer

  unfoldable pub call_on : List Fate → Request → Wire S → Reply S
  unfolding send no_answer
  call_on [] r w = reply w no_answer
  call_on (f ∷ fates) r w = send f fates r w

  unfoldable pub call : Request → Wire S → Reply S
  unfolding call_on
  call r w = call_on w.fates r w

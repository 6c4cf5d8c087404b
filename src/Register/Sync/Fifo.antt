-- ===== src/Register/Sync/Fifo.antt =====
-- What a run owes to the order of the outbox: no mutation of an order overtakes another, none is lost,
-- and none is delivered after one that was parked.
use antd_platform.Prelude.{ℕ, ◌≡◌, inr, refl, ◌∙◌, true, List, [], ◌∷◌, Text}
use antd_platform.Register.{OrderMutation}
use antd_platform.Register.Wire.{Server}
use antd_platform.Register.Sync.{Device, Turn, next, stop, turn, push_all, push_mutations}
use antd_platform.Register.Sync.Frame.{is_known, push_all_stop, push_all_next}
use antd_platform.Register.Sync.Pending.{Distinct, Owned, Distinct-Owned}
use antd_platform.Register.Sync.History.{pending, history, Ahead, block_next, Goes}
use antd_platform.Register.Sync.Turns.{turn-Goes}

module _ {S : Type 0} (server : Server S) (now : ℕ) (location : Text) (j : Text) where
  after_turn :
      (blocked : List Text) (m : OrderMutation) (rest : List OrderMutation) (d : Device S)
      (t : Turn S)
      → Goes j blocked m rest d t
      → ((d' : Device S)
          → (blocked' : List Text) → Owned rest (pending d')
          → Ahead j blocked' rest (pending d')
          → is_known j d'.register.orders ≡ true
          → history j (push_all server now location blocked' rest d').0 ≡ history j d')
      → is_known j d.register.orders ≡ true
      → turn server now location blocked m d ≡ t
      → history j (push_all server now location blocked (m ∷ rest) d).0 ≡ history j d
  after_turn blocked m rest d (stop d' e) goes more known is =
      rw (push_all_stop server now location m d blocked rest d' e is) goes.history_kept
  after_turn blocked m rest d (next block d') goes more known is =
      rw (push_all_next server now location m d blocked rest d' block is) (
        more d' (block_next block m blocked) goes.owned goes.ahead (goes.keeps.known_kept ∙ known)
        ∙ goes.keeps.history_kept)

  push_all-history :
      (blocked : List Text) (rest : List OrderMutation) (d : Device S)
      → Distinct rest
      → Owned rest (pending d)
      → Ahead j blocked rest (pending d)
      → is_known j d.register.orders ≡ true
      → history j (push_all server now location blocked rest d).0 ≡ history j d
  push_all-history blocked [] d distinct owned ahead known = unfold push_all in refl
  push_all-history blocked (m ∷ rest) d distinct owned ahead known =
      after_turn blocked m rest d (turn server now location blocked m d)
        (turn-Goes j blocked m rest d owned ahead server now location distinct.0 known)
        (λ d' blocked' o a k. push_all-history blocked' rest d' distinct.1 o a k) known refl

  -- A run keeps the history of every order on the device: what the server has accepted of it, in the
  -- order of acceptance, followed by what it is still owed, in the order of the outbox, is the same list
  -- of mutations before and after. So nothing overtakes or is lost, whatever the server answers, wherever
  -- the network fails, and also behind a mutation that is parked. The ids of the queued mutations are
  -- distinct.
  pub push_mutations-history :
      (d : Device S)
      → Distinct (pending d)
      → is_known j d.register.orders ≡ true
      → history j (push_mutations server now location d).0 ≡ history j d
  unfolding push_mutations
  push_mutations-history d distinct known =
      push_all-history [] (pending d) d distinct (Distinct-Owned (pending d) distinct) (inr refl)
        known

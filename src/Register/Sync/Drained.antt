-- ===== src/Register/Sync/Drained.antt =====
-- A run with the server in reach: the outbox ends empty.
use mathlib.Core.List.{append-nil, append_assoc}
use antd_platform.Prelude.{
  subst, ℕ, ◌+◌, ◌≡◌, refl, sym, ap, ◌∙◌, arith, Bool, true, false, ◌||◌, Option, none, List, [],
  ◌∷◌, ◌++◌, Text, text_eq, text_eq_refl, All, length, replicate,
}
use antd_platform.Register.{LocalOrder, OrderMutation}
use antd_platform.Register.Outbox.{list_pending, remove}
use antd_platform.Register.Outbox.Laws.{list_pending-remove, list_pending-nil}
use antd_platform.Register.Wire.{Fate, answered, Server, CallError}
use antd_platform.Register.Sync.{Device, Turn, next, stop, turn, push_all, push_mutations}
use antd_platform.Register.Sync.Frame.{is_known, push_all_next}
use antd_platform.Register.Sync.Pending.{IsFresh, Distinct}
use antd_platform.Register.Sync.Addressed.{addressed}
use antd_platform.Register.Sync.Drain.{
  TakesTurn, IsOpen, IsKnownIn, Ready, is_create, turn-Delivers,
}

remove_head :
    (m : OrderMutation) (rest : List OrderMutation)
    → All (IsFresh m) rest
    → remove m.id (m ∷ rest) ≡ rest
unfolding remove
remove_head m [] a = rw (text_eq_refl m.id)
remove_head m (r ∷ rest) (a, more) = ground (arith, text_eq_refl m.id, remove_head m rest more)

All_known :
    (orders orders' : List LocalOrder) (rest : List OrderMutation)
    → ((j : Text) → is_known j orders' ≡ is_known j orders)
    → All (IsKnownIn orders) rest
    → All (IsKnownIn orders') rest
All_known orders orders' [] same a = tt
All_known orders orders' (m ∷ rest) same (a, more) =
    (same m.order_id ∙ a, All_known orders orders' rest same more)

-- What a run leaves that delivered everything: nothing owed, one request and one acceptance for each
-- mutation, in the order of the outbox.
pub record Drained (S : Type 0) (d : Device S) (rest : List OrderMutation)
    (r : Device S × Option CallError) : Type 0 where
  pub no_error : r.1 ≡ none
  pub nothing_owed : r.0.register.outbox ≡ []
  pub all_delivered : r.0.delivered ≡ d.delivered ++ rest
  pub one_request_each : length r.0.wire.handled ≡ length d.wire.handled + length rest

-- The device after a turn.
abbrev pub device_after : {S : Type 0} → Turn S → Device S
device_after (next block d) = d
device_after (stop d e) = d

module _ {S : Type 0} (server : Server S) (now : ℕ) (location : Text) where
  -- The server accepts the requests of these mutations, each in the state in which its turn comes.
  unfoldable pub TakesRun : List OrderMutation → Device S → Type 0
  TakesRun [] d = Unit {0}
  TakesRun (m ∷ rest) d =
      TakesTurn server location m d × TakesRun rest (device_after (turn server now location [] m d))

  push_all-Drained :
      (has : Text → Bool) (fates : List Fate) (rest : List OrderMutation) (d : Device S)
      → d.wire.fates ≡ replicate (length rest) answered ++ fates
      → list_pending d.register.outbox ≡ rest
      → Distinct rest
      → All IsOpen rest
      → All (IsKnownIn d.register.orders) rest
      → ((j : Text) → has j ≡ true → addressed j d.register.orders ≡ true)
      → Ready has rest
      → TakesRun rest d
      → Drained S d rest (push_all server now location [] rest d)
  unfolding TakesRun
  push_all-Drained has fates [] d online pending distinct clear known addressed_if ready takes =
      record {
        no_error = unfold push_all in refl;
        nothing_owed = unfold push_all in list_pending-nil d.register.outbox pending;
        all_delivered = unfold push_all in sym (append-nil d.delivered);
        one_request_each = unfold push_all in omega arith;
      }
  push_all-Drained has fates (m ∷ rest) d online pending distinct clear known addressed_if ready
        takes =
      let first : (is_create m.work || addressed m.order_id d.register.orders) ≡ true =
        ground (arith, ready.0, addressed_if m.order_id) in
      let t =
        turn-Delivers server now location m (replicate (length rest) answered ++ fates) d online
          clear.0 known.0 first takes.0 in
      let now_has : Text → Bool = λ j. text_eq m.order_id j || has j in
      let left =
        push_all-Drained now_has fates rest t.after t.fates_left
          (ap list_pending t.outbox_is
            ∙ list_pending-remove m.id d.register.outbox
            ∙ ap (remove m.id) pending
            ∙ remove_head m rest distinct.0)
          distinct.1 clear.1
          (All_known d.register.orders t.after.register.orders rest t.known_kept known.1)
          (λ j h. t.addresses j (ground (arith, addressed_if j))) ready.1
          (subst (λ q. TakesRun rest (device_after q)) t.is takes.1) in
      rw (push_all_next server now location m d [] rest t.after false t.is) (record {
        no_error = left.no_error;
        nothing_owed = left.nothing_owed;
        all_delivered =
            left.all_delivered
            ∙ ap (λ ms. ms ++ rest) t.delivered_is
            ∙ append_assoc d.delivered (m ∷ []) rest;
        one_request_each = left.one_request_each ∙ omega (arith, t.one_request);
      })

  -- A run drains the outbox while the server answers and accepts the requests of the queued mutations, each
  -- in the state in which it comes, if each of them is of an order on the device, none is parked, their ids
  -- are distinct, and each is a create or of an order that has its server id or whose create is queued
  -- before: the run ends with no error, the outbox is empty, each mutation was delivered with one request,
  -- and they were delivered in the order of the outbox.
  pub push_mutations-Drained :
      (fates : List Fate) (d : Device S)
      → d.wire.fates ≡ replicate (length (list_pending d.register.outbox)) answered ++ fates
      → Distinct (list_pending d.register.outbox)
      → All IsOpen (list_pending d.register.outbox)
      → All (IsKnownIn d.register.orders) (list_pending d.register.outbox)
      → Ready (λ j. addressed j d.register.orders) (list_pending d.register.outbox)
      → TakesRun (list_pending d.register.outbox) d
      → Drained S d (list_pending d.register.outbox) (push_mutations server now location d)
  unfolding push_mutations
  push_mutations-Drained fates d online distinct clear known ready takes =
      push_all-Drained (λ j. addressed j d.register.orders) fates (list_pending d.register.outbox) d
        online refl distinct clear known (λ j h. h) ready takes

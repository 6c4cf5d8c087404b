-- ===== src/Register/Sync/Turns.antt =====
-- Each branch of a turn keeps the history of every order.
use antd_platform.Prelude.{
  ℕ, ◌≡◌, inl, inr, refl, sym, ◌∙◌, subst, arith, true, false, Bool-cases, Option, Option-cases,
  none, some, List, ◌∷◌, map, map, Text, text_eq, text_eq_iff, any, is_some, All,
}
use antd_platform.Pricing.Discounts.{given}
use antd_platform.Register.{LocalOrder, OrderMutation}
use antd_platform.Register.Orders.{get_order_by_id}
use antd_platform.Register.Outbox.{remove, update_row, park, bump}
use antd_platform.Register.Outbox.Laws.{list_pending-remove}
use antd_platform.Register.Wire.{Server, Wire, CallError}
use antd_platform.Register.Sync.{
  Device, Outcome, went, failed_with, next, dispatch, fail_turn, end_turn, discard, attempt, turn,
  parks,
}
use antd_platform.Register.Sync.Frame.{
  is_known, dispatch-is_known, mark_order_failed-Survives, attempt_unknown, attempt_known,
  turn_parked, turn_blocked, turn_free,
}
use antd_platform.Register.Sync.Pending.{
  of_order, IsFresh, Owned, of_order-remove_ne, of_order-update_row_ne, ids-of_order-move,
  of_order-append_ne, of_order-remove_first, KeepsNames, update_row-KeepsNames, ids-of_order-map,
  Owned-map, Owned-remove,
}
use antd_platform.Register.Sync.History.{
  pending, history, Ahead, Keeps, Goes, Ahead-blocked, Ahead-other, Ahead-parked, park-KeepsNames,
  bump-KeepsNames, pending-mark_failed, pending-bump_attempts,
}

module _ {S : Type 0} (j : Text) where
  -- A change of rows that keeps their names is not seen in the history.
  history_changed :
      (f : OrderMutation → OrderMutation) (keeps : KeepsNames f) (d d' : Device S)
      → d'.delivered ≡ d.delivered
      → pending d' ≡ map f (pending d)
      → history j d' ≡ history j d
  unfolding history
  history_changed f keeps d d' same changed =
      rw (same, changed, ids-of_order-map f keeps j (pending d))

  module _ (blocked : List Text) (m : OrderMutation) (rest : List OrderMutation) (d : Device S)
      (owned : Owned (m ∷ rest) (pending d)) (ahead : Ahead j blocked (m ∷ rest) (pending d)) where
    fail_turn-Goes :
        (parked : Option Text) (e : CallError) (w : Wire S)
        → Goes j blocked m rest d (fail_turn parked e m w d)
    unfolding fail_turn
    fail_turn-Goes none e w =
        let keeps = update_row-KeepsNames m.id bump bump-KeepsNames in
        record {
          history_kept =
              history_changed (update_row m.id bump) keeps d _ refl
                (pending-bump_attempts m.id d.register.outbox);
          known_kept = refl;
        }
    fail_turn-Goes (some message) e w =
        let named = park-KeepsNames message in
        let keeps = update_row-KeepsNames m.id (park message) named in
        let rows = pending-mark_failed m.id message d.register.outbox in
        record {
          keeps = record {
            history_kept = history_changed (update_row m.id (park message)) keeps d _ refl rows;
            known_kept = mark_order_failed-Survives m.order_id message j d.register.orders;
          };
          owned =
              rw rows (Owned-map (update_row m.id (park message)) keeps rest (pending d) owned.1);
          ahead =
              Ahead-parked j m blocked rest (pending d) _
                (λ other.
                  rw rows
                    (of_order-update_row_ne (park message) named j m (pending d) other owned.0))
                ahead;
        }

    -- A mutation is taken off the outbox, delivered or not.
    removed-Owned : (rows : List OrderMutation) → rows ≡ remove m.id (pending d) → Owned rest rows
    removed-Owned rows e = rw e (Owned-remove m.id rest (pending d) owned.1)

    removed_other :
        (rows : List OrderMutation)
        → rows ≡ remove m.id (pending d)
        → text_eq m.order_id j ≡ false
        → of_order j rows ≡ of_order j (pending d)
    removed_other rows e other = rw e (of_order-remove_ne j m (pending d) other owned.0)

    -- The mutation of an unknown order is dropped.
    discard-Goes : text_eq m.order_id j ≡ false → Goes j blocked m rest d (next false (discard m d))
    discard-Goes other =
        let rows = list_pending-remove m.id d.register.outbox in
        let same = removed_other _ rows other in
        record {
          keeps = record { history_kept = unfold history in (rw same); known_kept = refl };
          owned = removed-Owned _ rows;
          ahead = Ahead-other j m blocked rest (pending d) _ other same ahead;
        }

    went_here :
        (w : Wire S) (orders : List LocalOrder)
        → text_eq m.order_id j ≡ true
        → of_order j (pending d) ≡ m ∷ of_order j rest
        → All (IsFresh m) rest
        → is_known j orders ≡ is_known j d.register.orders
        → Goes j blocked m rest d (end_turn m (went w orders) d)
    unfolding end_turn
    went_here w orders same first fresh known =
        let rows = list_pending-remove m.id d.register.outbox in
        let gone : of_order j (remove m.id (pending d)) ≡ of_order j rest =
          of_order-remove_first j m rest (pending d) first fresh in
        record {
          keeps = record {
            history_kept =
                unfold history in
                (rw (rows, gone) (ids-of_order-move j m d.delivered (pending d) rest same first));
            known_kept = known;
          };
          owned = removed-Owned _ rows;
          ahead = inr (rw rows gone);
        }

    went_elsewhere :
        (w : Wire S) (orders : List LocalOrder)
        → text_eq m.order_id j ≡ false
        → is_known j orders ≡ is_known j d.register.orders
        → Goes j blocked m rest d (end_turn m (went w orders) d)
    unfolding end_turn
    went_elsewhere w orders other known =
        let rows = list_pending-remove m.id d.register.outbox in
        let same = removed_other _ rows other in
        record {
          keeps = record {
            history_kept = unfold history in (rw (same, of_order-append_ne j m d.delivered other));
            known_kept = known;
          };
          owned = removed-Owned _ rows;
          ahead = Ahead-other j m blocked rest (pending d) _ other same ahead;
        }

    -- A mutation of an order that is not blocked is the first that the order is owed.
    ahead_first :
        text_eq m.order_id j ≡ true
        → any (text_eq m.order_id) blocked ≡ false
        → of_order j (pending d) ≡ m ∷ of_order j rest
    ahead_first same free = elim ahead [
      | inl e ↦
          let at : any (text_eq m.order_id) blocked ≡ true =
            subst (λ k. any (text_eq k) blocked ≡ true) (sym ((text_eq_iff m.order_id j).0 same))
              e in
          absurd (ground arith)
      | inr e ↦ e ∙ rw same
    ]

    -- However the call ends.
    sent :
        (outcome : Outcome S)
        → ((w : Wire S) (orders : List LocalOrder)
            → outcome ≡ went w orders
            → is_known j orders ≡ is_known j d.register.orders)
        → any (text_eq m.order_id) blocked ≡ false
        → All (IsFresh m) rest
        → Goes j blocked m rest d (end_turn m outcome d)
    sent (failed_with w e) known free fresh = unfold end_turn in fail_turn-Goes (parks e) e w
    sent (went w orders) known free fresh = elim (Bool-cases (text_eq m.order_id j)) [
      | inl same ↦ went_here w orders same (ahead_first same free) fresh (known w orders refl)
      | inr other ↦ went_elsewhere w orders other (known w orders refl)
    ]

    module _ (server : Server S) (now : ℕ) (location : Text) where
      unknown_other :
          get_order_by_id m.order_id d.register.orders ≡ none
          → is_known j d.register.orders ≡ true
          → text_eq m.order_id j ≡ false
      unknown_other e known = elim (Bool-cases (text_eq m.order_id j)) [
        | inr other ↦ other
        | inl same ↦
            let at : get_order_by_id j d.register.orders ≡ none =
              subst (λ k. get_order_by_id k d.register.orders ≡ none)
                ((text_eq_iff m.order_id j).0 same) e in
            absurd (ground arith)
      ]

      attempt-Goes :
          any (text_eq m.order_id) blocked ≡ false
          → All (IsFresh m) rest
          → is_known j d.register.orders ≡ true
          → Goes j blocked m rest d (attempt server now location m d)
      attempt-Goes free fresh known =
          elim (Option-cases (get_order_by_id m.order_id d.register.orders)) [
            | inl e ↦
                subst (Goes j blocked m rest d) (sym (attempt_unknown server now location m d e))
                  (discard-Goes (unknown_other e known))
            | inr (order, e) ↦
                subst (Goes j blocked m rest d)
                  (sym (attempt_known server now location m d order e))
                  (sent (dispatch server now location m order d.wire d.register.orders)
                    (λ w orders h.
                      dispatch-is_known server now location m order d.wire w d.register.orders
                        orders h j)
                    free fresh)
          ]

      nothing : Keeps S j d d
      nothing = record { history_kept = refl; known_kept = refl }

      pub turn-Goes :
          All (IsFresh m) rest
          → is_known j d.register.orders ≡ true
          → Goes j blocked m rest d (turn server now location blocked m d)
      turn-Goes fresh known = elim (Bool-cases (is_some (given m.last_error))) [
        | inl parked ↦
            subst (Goes j blocked m rest d)
              (sym (turn_parked server now location m d blocked parked))
              (record {
                keeps = nothing;
                owned = owned.1;
                ahead = Ahead-parked j m blocked rest (pending d) (pending d) (λ other. refl) ahead;
              })
        | inr clear ↦ elim (Bool-cases (any (text_eq m.order_id) blocked)) [
          | inl held ↦
              subst (Goes j blocked m rest d)
                (sym (turn_blocked server now location m d blocked clear held))
                (record {
                  keeps = nothing;
                  owned = owned.1;
                  ahead = Ahead-blocked j m blocked rest (pending d) held ahead;
                })
          | inr free ↦
              subst (Goes j blocked m rest d)
                (sym (turn_free server now location m d blocked clear free))
                (attempt-Goes free fresh known)
        ]
      ]

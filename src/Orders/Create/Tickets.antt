-- ===== src/Orders/Create/Tickets.antt =====
-- Ticket numbers identify an order of a location.
use antd_platform.Prelude.{
  ℕ, ◌≤◌, ◌<◌, ◌≡◌, ◌≢◌, ◌⊎◌, inl, inr, sym, ap, ◌∙◌, arith, true, false, some, List, [], ◌∷◌, ◌++◌,
  Text, text_eq_refl, All, All-append, Bool-cases,
}
use antd_platform.Database.{Order}
use antd_platform.Pricing.Locations.{is_at, max_ticket, next_ticket_number}

-- The later order has no ticket, or no two orders of a location have one ticket number.
abbrev pub Apart : Order → Order → Type 0
Apart o p =
    (p.ticket_number ≡ 0) ⊎ ((o.location_id ≢ p.location_id) ⊎ (o.ticket_number ≢ p.ticket_number))

abbrev pub HasTicketKeys : List Order → Type 0
HasTicketKeys [] = Unit
HasTicketKeys (o ∷ os) = All (Apart o) os × HasTicketKeys os

pub max_ticket-top :
    (location : Text) (os : List Order)
    → All
        (λ o. (is_at location o.location_id ≡ false) ⊎ (o.ticket_number ≤ max_ticket location os))
        os
unfolding max_ticket
max_ticket-top location os = go os (max_ticket location os) (omega arith)
  where
    go :
        (os : List Order) (top : ℕ)
        → max_ticket location os ≤ top
        → All (λ o. (is_at location o.location_id ≡ false) ⊎ (o.ticket_number ≤ top)) os
    go [] top h = tt
    go (o ∷ os) top h = elim (Bool-cases (is_at location o.location_id)) [
      | inl e ↦ (inr (ground arith), go os top (ground arith))
      | inr e ↦ (inl e, go os top (ground arith))
    ]

is_at_self : (location : Text) → is_at location (some location) ≡ true
is_at_self location = text_eq_refl location

pub HasTicketKeys-snoc :
    (os : List Order) (new : Order)
    → HasTicketKeys os
    → All (λ o. Apart o new) os
    → HasTicketKeys (os ++ (new ∷ []))
HasTicketKeys-snoc [] new k h = (tt, tt)
HasTicketKeys-snoc (o ∷ os) new (k, ks) (h, hs) =
    (All-append (Apart o) os (new ∷ []) k (h, tt), HasTicketKeys-snoc os new ks hs)

pub apart :
    (location : Text) (new : Order) (top : ℕ) (os : List Order)
    → new.location_id ≡ some location
    → top < new.ticket_number
    → All (λ o. (is_at location o.location_id ≡ false) ⊎ (o.ticket_number ≤ top)) os
    → All (λ o. Apart o new) os
apart location new top [] at more h = tt
apart location new top (o ∷ os) at more (h, hs) = (one h, apart location new top os at more hs)
  where
    one : (is_at location o.location_id ≡ false) ⊎ (o.ticket_number ≤ top) → Apart o new
    one (inl elsewhere) = inr (
        inl (λ same.
          let clash : true ≡ false =
            sym (is_at_self location) ∙ ap (is_at location) (sym (same ∙ at)) ∙ elsewhere in
          absurd (ground arith)))
    one (inr below) = inr (inr (λ same. absurd (omega (arith, same, below, more))))

pub next_ticket_number-HasTicketKeys :
    (location : Text) (os : List Order) (new : Order)
    → HasTicketKeys os
    → new.location_id ≡ some location
    → new.ticket_number ≡ next_ticket_number os location
    → HasTicketKeys (os ++ (new ∷ []))
unfolding next_ticket_number
next_ticket_number-HasTicketKeys location os new keys at number = HasTicketKeys-snoc os new keys (
    apart location new (max_ticket location os) os at (omega (arith, number))
      (max_ticket-top location os))

pub no_ticket-Apart :
    (new : Order) (os : List Order) → new.ticket_number ≡ 0 → All (λ o. Apart o new) os
no_ticket-Apart new [] h = tt
no_ticket-Apart new (o ∷ os) h = (inl h, no_ticket-Apart new os h)

-- ===== src/Pricing/Locations.antt =====
-- order-pricing.service.ts, `getTaxRate`, `nextTicketNumber` and `resolveOrderLocation`.
use antd_platform.Prelude.{
  ℕ, ◌+◌, Bool, false, ◌&&◌, not, Option, none, some, List, [], ◌∷◌, Text, text_eq, find,
  if◌then◌else◌, max, filter, any,
}
use antd_platform.Database.{Order}

pub record Location : Type 0 where
  pub id : Text
  pub organization_id : Text
  pub tax_rate_bps : ℕ
  pub service_charge_bps : ℕ
  pub is_deleted : Bool

-- Read by the id alone; a missing location has rate 0.
unfoldable pub get_tax_rate : List Location → Option Text → ℕ
get_tax_rate locations none = 0
get_tax_rate locations (some []) = 0
get_tax_rate locations (some (c ∷ cs)) = elim (find (λ l. text_eq l.id (c ∷ cs)) locations) [
  | none ↦ 0
  | some l ↦ l.tax_rate_bps
]

abbrev pub is_at : Text → Option Text → Bool
is_at location none = false
is_at location (some l) = text_eq l location

-- `coalesce(max(ticket_number), 0)` over the location's orders.
unfoldable pub max_ticket : Text → List Order → ℕ
max_ticket location [] = 0
max_ticket location (o ∷ os) =
    let rest = max_ticket location os in
    if is_at location o.location_id then max o.ticket_number rest else rest

unfoldable pub next_ticket_number : List Order → Text → ℕ
unfolding max_ticket
next_ticket_number orders location = max_ticket location orders + 1

-- A hint wins, then the one location that the items share, then the organization's only location.
unfoldable pub distinct_ids : List Text → List Text
distinct_ids [] = []
distinct_ids (x ∷ xs) =
    let rest = distinct_ids xs in if any (text_eq x) rest then rest else x ∷ rest

unfoldable pub present : List (Option Text) → List Text
present [] = []
present (none ∷ rest) = present rest
present (some [] ∷ rest) = present rest
present (some (c ∷ cs) ∷ rest) = (c ∷ cs) ∷ present rest

unfoldable pub only_location : List Location → Option Text
only_location (l ∷ []) = some l.id
only_location _ = none

unfoldable pub resolve_order_location :
    List Location → Text → Option Text → List (Option Text) → Option Text
unfolding distinct_ids present only_location
resolve_order_location locations org (some (c ∷ cs)) item_locations = some (c ∷ cs)
resolve_order_location locations org hint item_locations =
    elim (distinct_ids (present item_locations)) [
      | l ∷ [] ↦ some l
      | _ ↦
          only_location (filter (λ l. text_eq l.organization_id org && not l.is_deleted) locations)
    ]

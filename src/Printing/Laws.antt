-- ===== src/Printing/Laws.antt =====
-- How often an order prints, and what is on its kitchen tickets.
use antd_platform.Prelude.{
  ℕ, suc, zero, ◌+◌, ◌≤◌, ◌≡◌, inl, inr, refl, ap, ◌∙◌, arith, Bool, true, false, not, ◌&&◌,
  Bool-cases, Option, Option-cases, none, some, List, [], ◌∷◌, ◌++◌, Text, filter, length,
  if◌then◌else◌, replicate,
}
use antd_platform.Prelude.Int.{ℤ}
use antd_platform.Pricing.Discounts.{given}
use antd_platform.Printing.{
  FullOrder, PlanRow, PrintSettings, Stored, clamp_copies, default_plan, kitchen_row, receipt_row,
  get_print_plan, settings_at, JobType, kitchen, receipt, Payload, build_print_payload, PrintJob,
  job, OrderEvent, triggered, document, print_for_events,
}

abbrev pub is_of : JobType → PrintJob → Bool
is_of kitchen j = elim j.job_type [ kitchen ↦ true | receipt ↦ false ]
is_of receipt j = elim j.job_type [ kitchen ↦ false | receipt ↦ true ]

abbrev pub count_of : JobType → List PrintJob → ℕ
count_of type jobs = length (filter (is_of type) jobs)

count-append :
    (type : JobType) (xs ys : List PrintJob)
    → count_of type (xs ++ ys) ≡ count_of type xs + count_of type ys
count-append type [] ys = omega arith
count-append type (x ∷ xs) ys = ground (arith, count-append type xs ys)

count-replicate_same :
    (type : JobType) (n : ℕ) (org : Text) (o : FullOrder) (p : Payload)
    → count_of type (replicate n (job org o type p)) ≡ n
count-replicate_same kitchen zero org o p = refl
count-replicate_same kitchen (suc n) org o p = ap suc (count-replicate_same kitchen n org o p)
count-replicate_same receipt zero org o p = refl
count-replicate_same receipt (suc n) org o p = ap suc (count-replicate_same receipt n org o p)

count-replicate_receipts :
    (n : ℕ) (org : Text) (o : FullOrder) (p : Payload)
    → count_of kitchen (replicate n (job org o receipt p)) ≡ 0
count-replicate_receipts zero org o p = refl
count-replicate_receipts (suc n) org o p = count-replicate_receipts n org o p

count-replicate_tickets :
    (n : ℕ) (org : Text) (o : FullOrder) (p : Payload)
    → count_of receipt (replicate n (job org o kitchen p)) ≡ 0
count-replicate_tickets zero org o p = refl
count-replicate_tickets (suc n) org o p = count-replicate_tickets n org o p

-- A number of copies.
abbrev pub IsCopies : ℕ → Type 0
IsCopies n = (1 ≤ n) × (n ≤ 5)

clamp_copies-IsCopies : (v : Option ℤ) → IsCopies (clamp_copies v)
unfolding clamp_copies
clamp_copies-IsCopies none = omega arith
clamp_copies-IsCopies (some v) = omega arith

kitchen_row-IsCopies : (s : PrintSettings) → IsCopies (kitchen_row s).copies
unfolding kitchen_row
kitchen_row-IsCopies s = elim (Option-cases s.kitchen) [
  | inl e ↦ rw e (clamp_copies-IsCopies s.kitchen_copies)
  | inr (m, e) ↦ rw e (clamp_copies-IsCopies m.copies)
]

receipt_row-IsCopies : (s : PrintSettings) → IsCopies (receipt_row s).copies
unfolding receipt_row
receipt_row-IsCopies s = elim (Option-cases s.receipt) [
  | inl e ↦ rw e (clamp_copies-IsCopies s.receipt_copies)
  | inr (m, e) ↦ rw e (clamp_copies-IsCopies m.copies)
]

pub get_print_plan-IsCopies :
    (stored : Stored) (location : Option Text)
    → IsCopies (get_print_plan stored location).kitchen.copies
      × IsCopies (get_print_plan stored location).receipt.copies
unfolding get_print_plan default_plan
get_print_plan-IsCopies stored location = elim (Option-cases (given location)) [
  | inl e ↦ rw (e, get_print_plan) (omega arith, omega arith)
  | inr (id, e) ↦
      rw (e, get_print_plan)
        (kitchen_row-IsCopies (settings_at id stored), receipt_row-IsCopies (settings_at id stored))
]

document-count :
    (org : Text) (o : FullOrder) (type : JobType) (cfg : PlanRow) (events : List OrderEvent)
    (p : Payload)
    → count_of type (document org o type cfg events p)
      ≡ (if triggered cfg events then cfg.copies else 0)
unfolding document
document-count org o kitchen cfg events p = elim (Bool-cases (triggered cfg events)) [
  | inl e ↦ rw e (count-replicate_same kitchen cfg.copies org o p)
  | inr e ↦ rw e
]
document-count org o receipt cfg events p = elim (Bool-cases (triggered cfg events)) [
  | inl e ↦ rw e (count-replicate_same receipt cfg.copies org o p)
  | inr e ↦ rw e
]

document-receipts :
    (org : Text) (o : FullOrder) (cfg : PlanRow) (events : List OrderEvent) (p : Payload)
    → count_of kitchen (document org o receipt cfg events p) ≡ 0
unfolding document
document-receipts org o cfg events p = elim (Bool-cases (triggered cfg events)) [
  | inl e ↦ rw e (count-replicate_receipts cfg.copies org o p)
  | inr e ↦ rw e
]

document-tickets :
    (org : Text) (o : FullOrder) (cfg : PlanRow) (events : List OrderEvent) (p : Payload)
    → count_of receipt (document org o kitchen cfg events p) ≡ 0
unfolding document
document-tickets org o cfg events p = elim (Bool-cases (triggered cfg events)) [
  | inl e ↦ rw e (count-replicate_tickets cfg.copies org o p)
  | inr e ↦ rw e
]

-- The events of one call print each document once, in the number of its copies, which is from one to five
-- whatever the settings say: the receipt if one of the events is checked for it, and the kitchen ticket if
-- one is checked for it and the order is not served by course; nothing else is printed.
pub print_for_events-count :
    (stored : Stored) (org : Text) (o : FullOrder) (events : List OrderEvent) (updated : Bool)
    → let plan = get_print_plan stored o.location_id in
      let jobs = print_for_events stored org o events updated in
      (count_of kitchen jobs
        ≡ (if not o.by_course && triggered plan.kitchen events then plan.kitchen.copies else 0))
      × (count_of receipt jobs ≡ (if triggered plan.receipt events then plan.receipt.copies else 0))
      × IsCopies plan.kitchen.copies
      × IsCopies plan.receipt.copies
unfolding print_for_events
print_for_events-count stored org o events updated =
    let plan = get_print_plan stored o.location_id in
    let p = build_print_payload o updated none in
    let tickets = if o.by_course then [] else document org o kitchen plan.kitchen events p in
    let receipts = document org o receipt plan.receipt events p in
    let limits = get_print_plan-IsCopies stored o.location_id in
    let r0 = document-receipts org o plan.receipt events p in
    let r1 = document-count org o receipt plan.receipt events p in
    let k0 = document-tickets org o plan.kitchen events p in
    let k1 = document-count org o kitchen plan.kitchen events p in
    elim (Bool-cases o.by_course) [
      | inl e ↦ (
        count-append kitchen tickets receipts ∙ rw e (omega (arith, r0)),
        count-append receipt tickets receipts ∙ rw e (omega (arith, r1)),
        limits.0,
        limits.1,
      )
      | inr e ↦ (
        count-append kitchen tickets receipts ∙ rw e (omega (arith, r0, k1)),
        count-append receipt tickets receipts ∙ rw e (omega (arith, k0, r1)),
        limits.0,
        limits.1,
      )
    ]

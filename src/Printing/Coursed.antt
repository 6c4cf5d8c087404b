-- ===== src/Printing/Coursed.antt =====
-- The kitchen tickets of an order that is served by course.
use antd_platform.Prelude.{
  Memᴰ, ap, ℕ, zero, suc, ◌≡◌, ◌⊎◌, inl, inr, refl, Bool, true, false, Bool-cases, Option, none,
  some, List, [], ◌∷◌, ◌++◌, map, Text, is_some, if◌then◌else◌, replicate, All, All-append,
}
use antd_platform.Orders.Fire.{is_course}
use antd_platform.Printing.{
  PrintItem, FullOrder, PlanRow, Stored, get_print_plan, kitchen, receipt, PayloadItem, ManualItem,
  ManualJob, manual_item, print_order, payload_item, items_of, Payload, build_print_payload,
  PrintJob, job, OrderEvent, save, paid, triggered, document, print_for_events, print_items,
  print_course, print_created,
}

abbrev pub HasCourse : PayloadItem → Type 0
HasCourse i = is_some i.course ≡ true

-- A receipt, or a kitchen ticket each line of which has a course.
abbrev pub IsCoursed : PrintJob → Type 0
IsCoursed j = (j.job_type ≡ receipt) ⊎ All HasCourse j.payload.items

All-replicate : (j : PrintJob) (n : ℕ) → IsCoursed j → All IsCoursed (replicate n j)
All-replicate j zero h = tt
All-replicate j (suc n) h = (h, All-replicate j n h)

course-some : (c : ℕ) (o : Option ℕ) → is_course c o ≡ true → is_some o ≡ true
course-some c none h = cc
course-some c (some d) h = refl

items-HasCourse :
    (c : ℕ) (items : List PrintItem) → All HasCourse (map payload_item (items_of (some c) items))
items-HasCourse c [] = tt
items-HasCourse c (i ∷ items) = elim (Bool-cases (is_course c i.course)) [
  | inl e ↦ rw e (course-some c i.course e, items-HasCourse c items)
  | inr e ↦ rw e (items-HasCourse c items)
]

receipts-IsCoursed :
    (org : Text) (o : FullOrder) (cfg : PlanRow) (events : List OrderEvent) (p : Payload)
    → All IsCoursed (document org o receipt cfg events p)
unfolding document
receipts-IsCoursed org o cfg events p = elim (Bool-cases (triggered cfg events)) [
  | inl e ↦ rw e (All-replicate (job org o receipt p) cfg.copies (inl refl))
  | inr e ↦ rw e tt
]

-- The events of a coursed order print no kitchen ticket.
pub print_for_events-IsCoursed :
    (stored : Stored) (org : Text) (o : FullOrder) (events : List OrderEvent) (updated : Bool)
    → o.by_course ≡ true
    → All IsCoursed (print_for_events stored org o events updated)
unfolding print_for_events
print_for_events-IsCoursed stored org o events updated coursed = rw coursed (
    receipts-IsCoursed org o (get_print_plan stored o.location_id).receipt events
      (build_print_payload o updated none))

tickets-IsCoursed :
    (stored : Stored) (org : Text) (o : FullOrder) (p : Payload) (items : List PayloadItem)
    → All HasCourse p.items
    → All IsCoursed (print_items stored org o p items)
unfolding print_items
tickets-IsCoursed stored org o p [] h = tt
tickets-IsCoursed stored org o p (i ∷ items) h =
    All-replicate (job org o kitchen p) (get_print_plan stored o.location_id).kitchen.copies (inr h)

print_course-IsCoursed :
    (stored : Stored) (org : Text) (o : FullOrder) (course : ℕ)
    → All IsCoursed (print_course stored org o course)
unfolding print_course build_print_payload
print_course-IsCoursed stored org o course =
    let p = build_print_payload o false (some course) in
    tickets-IsCoursed stored org o p p.items (items-HasCourse course o.items)

All-if :
    (b : Bool) (jobs : List PrintJob) → All IsCoursed jobs → All IsCoursed (if b then jobs else [])
All-if true jobs h = h
All-if false jobs h = tt

names-manual_item :
    (items : List PrintItem)
    → map (λ (i : ManualItem). i.name) (map manual_item items)
      ≡ map (λ (i : PrintItem). i.name) items
names-manual_item [] = refl
names-manual_item (i ∷ items) = ap (λ ns. i.name ∷ ns) (names-manual_item items)

-- A line with no course is on no kitchen ticket that an order served by course prints of itself: neither when
-- the order is created, nor at any later save, update or payment, nor when a course of it is fired. Only a
-- reprint by hand has every line of the order.
pub only_courses_printed :
    (stored : Stored) (org : Text) (o : FullOrder) (events : List OrderEvent) (updated : Bool)
    (course : ℕ)
    → o.by_course ≡ true
    → All IsCoursed (
        print_created stored org o
        ++ (print_for_events stored org o events updated ++ print_course stored org o course))
      × ((printer : Option Text)
          → All
              (λ (j : ManualJob).
                map (λ (i : ManualItem). i.name) j.items ≡ map (λ (i : PrintItem). i.name) o.items)
              (print_order org o printer))
unfolding print_created print_order
only_courses_printed stored org o events updated course coursed =
    let at_creation = if is_some o.paid_at then save ∷ paid ∷ [] else save ∷ [] in
    let at_once = if o.by_course then print_course stored org o 1 else [] in
    let first =
      All-append IsCoursed (print_for_events stored org o at_creation false) at_once
        (print_for_events-IsCoursed stored org o at_creation false coursed)
        (All-if o.by_course (print_course stored org o 1)
          (print_course-IsCoursed stored org o 1)) in
    let then_on =
      All-append IsCoursed (print_for_events stored org o events updated)
        (print_course stored org o course)
        (print_for_events-IsCoursed stored org o events updated coursed)
        (print_course-IsCoursed stored org o course) in
    (
      All-append IsCoursed (print_for_events stored org o at_creation false ++ at_once)
          (print_for_events stored org o events updated ++ print_course stored org o course) first
          then_on,
      λ printer. (names-manual_item o.items, (names-manual_item o.items, tt)),
    )

-- Every ticket has the line.
abbrev pub AllHave : PayloadItem → List PrintJob → Type 0
AllHave i = All (λ (j : PrintJob). (j.job_type ≡ kitchen) × Memᴰ i j.payload.items)

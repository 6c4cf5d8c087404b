-- ===== src/Orders/Fire/Laws.antt =====
-- What firing a course does, and what firing it again does.
use mathlib.Core.Option.{some-injective}
use antd_platform.Prelude.{
  ◌⊎◌, ◌||◌, Option-cases, ℕ, ◌≡◌, ◌≢◌, refl, sym, subst, ap, ◌∙◌, arith, Text, Option, none, some,
  List, [], ◌∷◌, ok, Bool, true, false, Result-cases, inl, inr, Bool-cases, map, any,
}
use antd_platform.Status.{pending, confirmed, same_status}
use antd_platform.Database.{Order, OrderItem, Db, find_order, update_order}
use antd_platform.Database.Laws.{KeepsKeys, find_order-update_order, find_order-update_order_ne}
use antd_platform.Pricing.Discounts.{given}
use antd_platform.Orders.Edit.{live_order, already_done, add_claim}
use antd_platform.Orders.Edit.Laws.{
  payments-add_claim, payments-update_order, live_order-inv, find_order-add_claim,
  already_done-add_claim,
}
use antd_platform.Orders.Fire.{is_due, stamp, stamp_order, fire_items, fire_course}

stamp-not-due : (now course : ℕ) (i : OrderItem) → is_due course (stamp now course i) ≡ false
unfolding stamp is_due
stamp-not-due now course i = ground arith

stamped :
    (now course : ℕ) (items : List OrderItem)
    → any (is_due course) (map (stamp now course) items) ≡ false
stamped now course [] = refl
stamped now course (i ∷ items) = rw (stamp-not-due now course i) (stamped now course items)

stamp-idle :
    (now course : ℕ) (items : List OrderItem)
    → any (is_due course) items ≡ false
    → map (stamp now course) items ≡ items
unfolding stamp
stamp-idle now course [] h = refl
stamp-idle now course (i ∷ items) h = ground (arith, stamp-idle now course items)

stamp_order-KeepsKeys : (now course : ℕ) → KeepsKeys (stamp_order now course)
unfolding stamp_order
stamp_order-KeepsKeys now course = record { id_kept = λ o. refl; organization_kept = λ o. refl }

-- What a fire that was not a replay leaves: the flag says whether an item of the course was due.
pub record Fired (now course : ℕ) (org id : Text) (db db' : Db) (flag : Bool) : Type 0 where
  pub before : Order
  pub after : Order
  pub was : find_order org id db ≡ some before
  pub is : find_order org id db' ≡ some after
  pub was_unpaid : before.paid_at ≡ none
  pub was_open : (same_status before.status pending || same_status before.status confirmed) ≡ true
  pub items_stamped : after.items ≡ map (stamp now course) before.items
  pub none_due : any (is_due course) after.items ≡ false
  pub flag_is : flag ≡ any (is_due course) before.items
  pub total_kept : after.total_amount ≡ before.total_amount
  pub other_orders : (j : Text) → j ≢ id → find_order org j db' ≡ find_order org j db
  pub payments_kept : db'.payments ≡ db.payments

fire_items-Fired :
    (now : ℕ) (org id : Text) (course : ℕ) (m : Option Text) (db db' : Db) (flag : Bool)
    → fire_items now org id course m db ≡ ok (db', flag)
    → Fired now course org id db db' flag
unfolding fire_items
fire_items-Fired now org id course m db db' flag h = elim (Result-cases (live_order org id db)) [
  | inr (x, e) ↦ absurd (ground arith)
  | inl (o, e) ↦
      let found = live_order-inv org id db o e in
      let keeps = stamp_order-KeepsKeys now course in
      let claimed = add_claim org m db in
      let db_is : db' ≡ update_order id (stamp_order now course) claimed = ground arith in
      record {
        before = o;
        after = stamp_order now course o;
        was = found;
        is = rw db_is (
            find_order-update_order id (stamp_order now course) keeps org claimed
              (find_order-add_claim org id org m db ∙ found));
        was_unpaid = ground arith;
        was_open = ground arith;
        items_stamped = unfold stamp_order in refl;
        none_due = unfold stamp_order in stamped now course o.items;
        flag_is = ground arith;
        total_kept = unfold stamp_order in refl;
        other_orders = λ j ne. rw db_is (
            find_order-update_order_ne id (stamp_order now course) keeps org j claimed ne
            ∙ find_order-add_claim org j org m db);
        payments_kept = rw db_is (
            payments-update_order id (stamp_order now course) claimed
            ∙ payments-add_claim org m db);
      }
]

pub fire_course-Fired :
    (now : ℕ) (org id : Text) (course : ℕ) (m : Option Text) (db db' : Db) (flag : Bool)
    → fire_course now org id course m db ≡ ok (db', flag)
    → ((already_done org (given m) db ≡ true) × (db' ≡ db) × (flag ≡ false))
      ⊎ ((already_done org (given m) db ≡ false) × Fired now course org id db db' flag)
unfolding fire_course
fire_course-Fired now org id course m db db' flag h =
    elim (Bool-cases (already_done org (given m) db)) [
      | inl old ↦ elim (Option-cases (find_order org id db)) [
        | inl e ↦ absurd (ground arith)
        | inr (o, e) ↦ inl (old, ground arith, ground arith)
      ]
      | inr new ↦ inr (new, fire_items-Fired now org id course (given m) db db' flag (ground arith))
    ]

refire :
    (now later : ℕ) (org id : Text) (course : ℕ) (db db' db'' : Db) (flag again : Bool)
    (o o' : Order)
    → Fired now course org id db db' flag
    → Fired later course org id db' db'' again
    → find_order org id db' ≡ some o
    → find_order org id db'' ≡ some o'
    → (again ≡ false) × (o'.items ≡ o.items)
refire now later org id course db db' db'' flag again o o' f g before after =
    let same : f.after ≡ o = some-injective _ _ (sym f.is ∙ before) in
    let same' : g.before ≡ o = some-injective _ _ (sym g.was ∙ before) in
    let last : g.after ≡ o' = some-injective _ _ (sym g.is ∙ after) in
    let idle : any (is_due course) o.items ≡ false =
      subst (λ (o : Order). any (is_due course) o.items ≡ false) same f.none_due in
    (
      g.flag_is ∙ ap (λ (o : Order). any (is_due course) o.items) same' ∙ idle,
      ap (λ (o : Order). o.items) (sym last)
          ∙ g.items_stamped
          ∙ ap (λ (o : Order). map (stamp later course) o.items) same'
          ∙ stamp-idle later course o.items idle,
    )

-- After a fire of a course that was accepted and was not a replay, a later fire of the course that is
-- accepted, under whatever mutation ids, reports that nothing was due, and leaves every line as it was.
pub fire_course_twice :
    (now later : ℕ) (org id : Text) (course : ℕ) (m m' : Option Text) (db db' db'' : Db)
    (flag again : Bool) (o o' : Order)
    → already_done org (given m) db ≡ false
    → fire_course now org id course m db ≡ ok (db', flag)
    → fire_course later org id course m' db' ≡ ok (db'', again)
    → find_order org id db' ≡ some o
    → find_order org id db'' ≡ some o'
    → (again ≡ false) × (o'.items ≡ o.items)
fire_course_twice now later org id course m m' db db' db'' flag again o o' new h k before after =
    elim (fire_course-Fired now org id course m db db' flag h) [
      | inl (old, same, none_fired) ↦ absurd (ground arith)
      | inr (fresh, f) ↦ elim (fire_course-Fired later org id course m' db' db'' again k) [
        | inl (old, same, none_fired) ↦
            let one : o ≡ o' =
              some-injective _ _ (sym before ∙ ap (find_order org id) (sym same) ∙ after) in
            (none_fired, ap (λ (o : Order). o.items) (sym one))
        | inr (fresh', g) ↦
            refire now later org id course db db' db'' flag again o o' f g before after
      ]
    ]

fire_items-claimed :
    (now : ℕ) (org id : Text) (course : ℕ) (m : Text) (db db' : Db) (flag : Bool)
    → fire_items now org id course (some m) db ≡ ok (db', flag)
    → already_done org (some m) db' ≡ true
unfolding fire_items
fire_items-claimed now org id course m db db' flag h = elim (Result-cases (live_order org id db)) [
  | inr (x, e) ↦ absurd (ground arith)
  | inl (o, e) ↦
      let written : db' ≡ update_order id (stamp_order now course) (add_claim org (some m) db) =
        ground arith in
      rw written (already_done-add_claim org m id (stamp_order now course) db)
]

-- After a fire with a mutation id, the same request changes nothing and prints nothing.
pub fire_course-replayed :
    (now later : ℕ) (org id : Text) (course : ℕ) (c : ℕ) (cs : Text) (db db' : Db) (flag : Bool)
    → fire_course now org id course (some (c ∷ cs)) db ≡ ok (db', flag)
    → fire_course later org id course (some (c ∷ cs)) db' ≡ ok (db', false)
unfolding fire_course
fire_course-replayed now later org id course c cs db db' flag h =
    let m = c ∷ cs in
    elim (Bool-cases (already_done org (some m) db)) [
      | inl old ↦ elim (Option-cases (find_order org id db)) [
        | inl e ↦ absurd (ground arith)
        | inr (o, e) ↦ ground arith
      ]
      | inr new ↦
          let went : fire_items now org id course (some m) db ≡ ok (db', flag) = ground arith in
          let done : already_done org (some m) db' ≡ true =
            fire_items-claimed now org id course m db db' flag went in
          let there = (fire_items-Fired now org id course (some m) db db' flag went).is in
          rw (done, there)
    ]

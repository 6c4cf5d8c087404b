-- ===== src/Register/Days/Laws.antt =====
-- What is kept when days are started and ended.
use antd_platform.Prelude.{
  ℕ, ◌≡◌, refl, ap, ◌∙◌, subst, arith, Bool, true, false, Bool-cases, Option-cases, none, some,
  List, [], ◌∷◌, ◌++◌, Text, text_eq, text_eq_iff, text_eq_refl, any, All, inl, inr, ok,
}
use antd_platform.Register.Days.{
  BusinessDay, latest_day, is_open, get_open_day, update_day, reopened, new_day, start_day,
  closed_day, end_day,
}

-- Every open day has this id.
abbrev pub OpenIs : Text → List BusinessDay → Type 0
OpenIs id = All (λ (d : BusinessDay). is_open d ≡ true → d.id ≡ id)

unfoldable pub HasOneDayPerDate : List BusinessDay → Type 0
HasOneDayPerDate [] = Unit
HasOneDayPerDate (d ∷ ds) =
    (any (λ (e : BusinessDay). text_eq e.date d.date) ds ≡ false) × HasOneDayPerDate ds

-- The open days are one, since ids are unique, and dates have one day each.
pub record WellKept (days : List BusinessDay) : Type 0 where
  pub open_id : Text
  pub open_is : OpenIs open_id days
  pub dates : HasOneDayPerDate days

pub data DayStep (days days' : List BusinessDay) : Type 0 where
  starts :
      (now : ℕ) (id today opened_by : Text) (d : BusinessDay)
      → start_day now id today opened_by days ≡ ok (days', d)
      → DayStep days days'
  ends :
      (now : ℕ) (id closed_by : Text) (d : BusinessDay)
      → end_day now id closed_by days ≡ some (days', d)
      → DayStep days days'

pub data DaySteps : List BusinessDay → List BusinessDay → Type 0 where
  done : {days : List BusinessDay} → DaySteps days days
  then :
      {days days' days'' : List BusinessDay}
      → DayStep days days'
      → DaySteps days' days''
      → DaySteps days days''

latest_day-none :
    (p : BusinessDay → Bool) (ds : List BusinessDay) → latest_day p ds ≡ none → any p ds ≡ false
unfolding latest_day
latest_day-none p [] h = refl
latest_day-none p (d ∷ ds) h = ground (arith, latest_day-none p ds)

none-OpenIs : (id : Text) (ds : List BusinessDay) → any is_open ds ≡ false → OpenIs id ds
none-OpenIs id [] h = tt
none-OpenIs id (d ∷ ds) h = (λ o. absurd (ground arith), none-OpenIs id ds (ground arith))

-- Rows that are reopened all have the id that they are found by.
update_day-OpenIs :
    (id : Text) (f : BusinessDay → BusinessDay) (ds : List BusinessDay)
    → ((d : BusinessDay) → (f d).id ≡ d.id)
    → any is_open ds ≡ false
    → OpenIs id (update_day id f ds)
unfolding update_day
update_day-OpenIs id f [] keeps h = tt
update_day-OpenIs id f (d ∷ ds) keeps h =
    let rest = update_day-OpenIs id f ds keeps (ground arith) in
    elim (Bool-cases (text_eq d.id id)) [
      | inl t ↦ (λ o. rw t (keeps d ∙ (text_eq_iff d.id id).0 t), rest)
      | inr e ↦ (λ o. absurd (ground arith), rest)
    ]

update_day-closes :
    (id open_id : Text) (f : BusinessDay → BusinessDay) (ds : List BusinessDay)
    → ((d : BusinessDay) → is_open (f d) ≡ false)
    → OpenIs open_id ds
    → OpenIs open_id (update_day id f ds)
unfolding update_day
update_day-closes id open_id f [] shuts a = tt
update_day-closes id open_id f (d ∷ ds) shuts (first, a) =
    let rest = update_day-closes id open_id f ds shuts a in
    elim (Bool-cases (text_eq d.id id)) [
      | inl t ↦ (λ o. absurd (ground (arith, shuts d)), rest)
      | inr e ↦ (λ o. rw e (first (ground arith)), rest)
    ]

any_date-update_day :
    (id today : Text) (f : BusinessDay → BusinessDay) (ds : List BusinessDay)
    → ((d : BusinessDay) → (f d).date ≡ d.date)
    → any (λ (e : BusinessDay). text_eq e.date today) (update_day id f ds)
      ≡ any (λ (e : BusinessDay). text_eq e.date today) ds
unfolding update_day
any_date-update_day id today f [] keeps = refl
any_date-update_day id today f (d ∷ ds) keeps =
    ground (arith, keeps d, any_date-update_day id today f ds keeps)

update_day-HasOneDayPerDate :
    (id : Text) (f : BusinessDay → BusinessDay) (ds : List BusinessDay)
    → ((d : BusinessDay) → (f d).date ≡ d.date)
    → HasOneDayPerDate ds
    → HasOneDayPerDate (update_day id f ds)
unfolding update_day HasOneDayPerDate
update_day-HasOneDayPerDate id f [] keeps a = tt
update_day-HasOneDayPerDate id f (d ∷ ds) keeps (first, a) =
    let rest = update_day-HasOneDayPerDate id f ds keeps a in
    elim (Bool-cases (text_eq d.id id)) [
      | inl t ↦ (rw (t, keeps d) (any_date-update_day id d.date f ds keeps ∙ first), rest)
      | inr e ↦ (rw e (any_date-update_day id d.date f ds keeps ∙ first), rest)
    ]

text_eq_apart : (a b : Text) → text_eq a b ≡ false → text_eq b a ≡ false
text_eq_apart a b h = elim (Bool-cases (text_eq b a)) [
  | inl t ↦
      let same : b ≡ a = (text_eq_iff b a).0 t in
      absurd (ground (arith, h, ap (text_eq a) same, text_eq_refl a))
  | inr e ↦ e
]

any-snoc :
    (today : Text) (ds : List BusinessDay) (d : BusinessDay)
    → any (λ (e : BusinessDay). text_eq e.date today) ds ≡ false
    → text_eq d.date today ≡ false
    → any (λ (e : BusinessDay). text_eq e.date today) (ds ++ d ∷ []) ≡ false
any-snoc today [] d h e = ground arith
any-snoc today (x ∷ ds) d h e = ground (arith, any-snoc today ds d)

HasOneDayPerDate-snoc :
    (ds : List BusinessDay) (d : BusinessDay)
    → any (λ (e : BusinessDay). text_eq e.date d.date) ds ≡ false
    → HasOneDayPerDate ds
    → HasOneDayPerDate (ds ++ d ∷ [])
unfolding HasOneDayPerDate
HasOneDayPerDate-snoc [] d h a = (refl, tt)
HasOneDayPerDate-snoc (x ∷ ds) d h (first, a) = (
  any-snoc x.date ds d first (text_eq_apart x.date d.date (ground arith)),
  HasOneDayPerDate-snoc ds d (ground arith) a,
)

OpenIs-snoc :
    (ds : List BusinessDay) (d : BusinessDay) → OpenIs d.id ds → OpenIs d.id (ds ++ d ∷ [])
OpenIs-snoc [] d a = (λ o. refl, tt)
OpenIs-snoc (x ∷ ds) d (first, a) = (first, OpenIs-snoc ds d a)

DayStep-WellKept :
    (days days' : List BusinessDay) → DayStep days days' → WellKept days → WellKept days'
unfolding start_day end_day get_open_day
DayStep-WellKept days days' (starts now id today opened_by d h) w =
    elim (Option-cases (latest_day is_open days)) [
      | inr (o, e) ↦ absurd (ground arith)
      | inl e ↦
          let shut : any is_open days ≡ false = latest_day-none is_open days e in
          elim (Option-cases (latest_day (λ d. text_eq d.date today) days)) [
            | inr (r, f) ↦
                let rows : update_day r.id reopened days ≡ days' = ground arith in
                subst WellKept rows (
                  unfold reopened in
                  record {
                    open_id = r.id;
                    open_is = update_day-OpenIs r.id _ days (λ d. refl) shut;
                    dates = update_day-HasOneDayPerDate r.id _ days (λ d. refl) w.dates;
                  })
            | inl f ↦
                let rows : days ++ new_day now id today opened_by ∷ [] ≡ days' = ground arith in
                subst WellKept rows (
                  unfold new_day in
                  record {
                    open_id = id;
                    open_is = OpenIs-snoc days _ (none-OpenIs id days shut);
                    dates = HasOneDayPerDate-snoc days _ (latest_day-none _ days f) w.dates;
                  })
          ]
    ]
DayStep-WellKept days days' (ends now id closed_by d h) w =
    elim (Option-cases (latest_day is_open days)) [
      | inl e ↦ absurd (ground arith)
      | inr (o, e) ↦
          let rows : update_day id (closed_day now closed_by) days ≡ days' = ground arith in
          subst WellKept rows (
            unfold closed_day in
            record {
              open_id = w.open_id;
              open_is = update_day-closes id w.open_id _ days (λ d. refl) w.open_is;
              dates = update_day-HasOneDayPerDate id _ days (λ d. refl) w.dates;
            })
    ]

-- However often days are started and ended, all open rows are of one id, and no two rows are of one date:
-- a second start on a date opens its day again.
pub DaySteps-WellKept :
    (days days' : List BusinessDay) → DaySteps days days' → WellKept days → WellKept days'
DaySteps-WellKept days days' done w = w
DaySteps-WellKept days days' (then {days' = next} step steps) w =
    DaySteps-WellKept next days' steps (DayStep-WellKept days next step w)

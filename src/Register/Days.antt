-- ===== src/Register/Days.antt =====
-- apps/pos/src/db/businessDayRepo.ts: the days of business. The clock, its date
-- in local time and new ids are arguments. Of two rows with the same time of opening the first one in the
-- table is taken as the newer, where the source leaves the order open.
pub mod Laws
use antd_platform.Prelude.{
  ℕ, Bool, not, Option, none, some, List, [], ◌∷◌, ◌++◌, map, Text, text_eq, is_some, ltb, Result,
  ok, err, if◌then◌else◌,
}

pub record BusinessDay : Type 0 where
  pub id : Text
  pub date : Text
  pub opened_at : ℕ
  pub closed_at : Option ℕ
  pub opened_by : Text
  pub closed_by : Option Text

unfoldable pub newer_day : BusinessDay → Option BusinessDay → BusinessDay
newer_day d none = d
newer_day d (some e) = if ltb d.opened_at e.opened_at then e else d

-- `SELECT * … WHERE … ORDER BY opened_at DESC LIMIT 1`.
unfoldable pub latest_day : (BusinessDay → Bool) → List BusinessDay → Option BusinessDay
unfolding newer_day
latest_day p [] = none
latest_day p (d ∷ ds) = let rest = latest_day p ds in if p d then some (newer_day d rest) else rest

abbrev pub is_open : BusinessDay → Bool
is_open d = not (is_some d.closed_at)

unfoldable pub get_open_day : List BusinessDay → Option BusinessDay
unfolding latest_day
get_open_day = latest_day is_open

-- `UPDATE business_days SET … WHERE id = ?`.
unfoldable pub update_day : Text → (BusinessDay → BusinessDay) → List BusinessDay → List BusinessDay
update_day id f = map (λ (d : BusinessDay). if text_eq d.id id then f d else d)

pub data DayError : Type 0 where
  already_open : DayError

unfoldable pub reopened : BusinessDay → BusinessDay
reopened d = record d { closed_at = none; closed_by = none }

unfoldable pub new_day : ℕ → Text → Text → Text → BusinessDay
new_day now id today opened_by = record {
  id = id;
  date = today;
  opened_at = now;
  closed_at = none;
  opened_by = opened_by;
  closed_by = none;
}

-- A day that is closed already is opened again on its own date.
unfoldable pub start_day :
    ℕ → Text → Text → Text → List BusinessDay → Result DayError (List BusinessDay × BusinessDay)
unfolding get_open_day reopened new_day
start_day now id today opened_by days = elim (get_open_day days) [
  | some existing ↦ err already_open
  | none ↦ elim (latest_day (λ d. text_eq d.date today) days) [
    | some recent ↦ ok (update_day recent.id reopened days, reopened recent)
    | none ↦ ok (days ++ new_day now id today opened_by ∷ [], new_day now id today opened_by)
  ]
]

unfoldable pub closed_day : ℕ → Text → BusinessDay → BusinessDay
closed_day now closed_by d = record d { closed_at = some now; closed_by = some closed_by }

unfoldable pub end_day :
    ℕ → Text → Text → List BusinessDay → Option (List BusinessDay × BusinessDay)
unfolding get_open_day closed_day
end_day now id closed_by days = elim (get_open_day days) [
  | none ↦ none
  | some d ↦
      if text_eq d.id id
      then some (update_day id (closed_day now closed_by) days, closed_day now closed_by d)
      else none
]

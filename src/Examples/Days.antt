-- ===== src/Examples/Days.antt =====
-- A day that is started, ended, and started again on its date.
use antd_platform.Prelude.{◌≡◌, refl, none, some, [], ◌∷◌, Text, codes, ok, text_eq}
use antd_platform.Register.Days.{update_day, BusinessDay, start_day, end_day}
use antd_platform.Register.Days.Laws.{
  HasOneDayPerDate, WellKept, starts, ends, done, then, DaySteps-WellKept,
}
use antd_platform.Examples.Fixtures.{ann}

abbrev new_year : Text
new_year = codes "2026-01-01"

abbrev morning : BusinessDay
morning = record {
  id = codes "b1";
  date = new_year;
  opened_at = 8;
  closed_at = none;
  opened_by = ann;
  closed_by = none;
}

abbrev night : BusinessDay
night = record morning { closed_at = some 20; closed_by = some ann }

started : start_day 8 (codes "b1") new_year ann [] ≡ ok (morning ∷ [], morning)
unfolding start_day
started = refl

ended : end_day 20 (codes "b1") ann (morning ∷ []) ≡ some (night ∷ [], night)
unfolding end_day text_eq update_day
ended = refl

again : start_day 21 (codes "b2") new_year (codes "bob") (night ∷ []) ≡ ok (morning ∷ [], morning)
unfolding start_day text_eq update_day
again = refl

nothing_kept : WellKept []
unfolding HasOneDayPerDate
nothing_kept = record { open_id = []; open_is = tt; dates = tt }

DaySteps-WellKept_example : WellKept (morning ∷ [])
DaySteps-WellKept_example =
    DaySteps-WellKept [] (morning ∷ [])
      (then (starts 8 (codes "b1") new_year ann morning started) (
        then (ends 20 (codes "b1") ann night ended)
          (then (starts 21 (codes "b2") new_year (codes "bob") morning again) done)))
      nothing_kept

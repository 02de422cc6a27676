-- ===== src/Missions/Schedule/Tests.antt =====
-- Schedules with concrete instants, in microseconds.
use aishopping_agent.Common.{
  ℕ, ◌≤◌, ◌<◌, ◌+◌, ◌*◌, ◌≡◌, ◌≢◌, refl, arith, true, false, List, [], ◌∷◌, none, some, Elem, take,
  Ordered,
}
use aishopping_agent.Common.Time.{aware, minutes}
use aishopping_agent.Missions.Schedule.{
  MissionSchedule, ScheduleRow, ok, advance_schedule, find_due_schedules,
}
use aishopping_agent.Missions.Schedule.Advance.{advance_schedule_next}
use aishopping_agent.Missions.Schedule.Due.{find_due_schedules_lem, IsDue, RunsFirst}

abbrev hourly : MissionSchedule
hourly = record {
  id = 1;
  mission_id = 7;
  is_enabled = true;
  interval_minutes = 60;
  next_run_at = 1000000;
  last_run_at = none;
  updated_at = 0;
}

not_zero : hourly.interval_minutes ≢ 0
not_zero e = omega (arith, e)

advance_schedule_next_example :
    (s' : MissionSchedule) × (advance_schedule hourly (aware 9000000000) ≡ ok s')
    × (9000000000 < s'.next_run_at)
    × (s'.next_run_at ≤ 9000000000 + minutes 60)
    × ((k : ℕ) × (s'.next_run_at ≡ 1000000 + minutes 60 * (k + 1)))
    × (s'.last_run_at ≡ some 9000000000)
    × (s'.is_enabled ≡ true)
    × (s'.interval_minutes ≡ 60)
advance_schedule_next_example = advance_schedule_next hourly 9000000000 refl not_zero (omega arith)

abbrev row : ScheduleRow
row = record {
  schedule = hourly;
  mission_is_active = true;
  mission_expires_at = none;
  is_locked = false;
}

abbrev rows : List ScheduleRow
rows =
    row
    ∷ record row { schedule = record hourly { id = 2; next_run_at = 500 } }
    ∷ record row { is_locked = true }
    ∷ []

find_due_schedules_lem_example :
    (due : List ScheduleRow) × (find_due_schedules rows (aware 2000000) 100 ≡ ok (take 100 due))
    × Ordered RunsFirst due
    × ((r : ScheduleRow) → Elem r due → Elem r rows × IsDue 2000000 r)
    × ((r : ScheduleRow) → Elem r rows → IsDue 2000000 r → Elem r due)
find_due_schedules_lem_example = find_due_schedules_lem rows 2000000 100 (omega arith) (omega arith)

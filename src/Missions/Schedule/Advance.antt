-- ===== src/Missions/Schedule/Advance.antt =====
-- An advanced schedule lies in the future, on its grid, and nothing is made up for.
use aishopping_agent.Common.{
  ℕ, ◌+◌, ◌-◌, ◌*◌, ◌/◌, ◌≤◌, ◌<◌, ◌≡◌, ◌≢◌, refl, true, false, some, arith,
}
use native.Mathlib.Nat.{div-add-mod, mod-lt}
use aishopping_agent.Common.Time.{aware, naive, minutes}
use aishopping_agent.Missions.Schedule.{
  MissionSchedule, not_aware, disabled, interval_not_positive, not_due, ok, err, advance_schedule,
}

steps_ahead :
    (elapsed interval : ℕ)
    → 0 < interval
    → (elapsed < interval * (elapsed / interval + 1))
      × (interval * (elapsed / interval + 1) ≤ elapsed + interval)
steps_ahead elapsed interval h =
    (grind (arith, div-add-mod, mod-lt), grind (arith, div-add-mod, mod-lt))

minutes_pos : (n : ℕ) → n ≢ 0 → 0 < minutes n
unfolding minutes
minutes_pos n h = omega arith

-- A schedule that is enabled, has a positive interval and is due is advanced: its next run is
-- after the start, at most one interval later, and a whole number of intervals, at least one,
-- after the run that was due. The start becomes the last run; the schedule stays enabled and
-- keeps its interval.
pub advance_schedule_next :
    (s : MissionSchedule) (t : ℕ)
    → s.is_enabled ≡ true
    → s.interval_minutes ≢ 0
    → s.next_run_at ≤ t
    → (s' : MissionSchedule) × (advance_schedule s (aware t) ≡ ok s')
      × (t < s'.next_run_at)
      × (s'.next_run_at ≤ t + minutes s.interval_minutes)
      × ((k : ℕ) × (s'.next_run_at ≡ s.next_run_at + minutes s.interval_minutes * (k + 1)))
      × (s'.last_run_at ≡ some t)
      × (s'.is_enabled ≡ true)
      × (s'.interval_minutes ≡ s.interval_minutes)
unfolding advance_schedule
advance_schedule_next s t on pos due =
    let interval = minutes s.interval_minutes in
    let (after, before) =
      steps_ahead (t - s.next_run_at) interval (minutes_pos s.interval_minutes pos) in
    (
      record s {
        last_run_at = some t;
        next_run_at = s.next_run_at + interval * ((t - s.next_run_at) / interval + 1);
        updated_at = t;
      },
      ground arith,
      omega arith,
      omega arith,
      ((t - s.next_run_at) / interval, refl),
      refl,
      on,
      refl,
    )

-- In every other case the schedule is refused, with the first error that applies: a start with no
-- time zone, a disabled schedule, an interval of zero, a run that is not due.
pub advance_schedule_refuses :
    (s : MissionSchedule) (t : ℕ)
    → (advance_schedule s (naive t) ≡ err not_aware)
      × (s.is_enabled ≡ false → advance_schedule s (aware t) ≡ err disabled)
      × (s.is_enabled ≡ true
          → s.interval_minutes ≡ 0
          → advance_schedule s (aware t) ≡ err interval_not_positive)
      × (s.is_enabled ≡ true
          → s.interval_minutes ≢ 0
          → t < s.next_run_at
          → advance_schedule s (aware t) ≡ err not_due)
unfolding advance_schedule
advance_schedule_refuses s t =
    (refl, λ off. ground arith, λ on zero. ground arith, λ on pos early. ground arith)

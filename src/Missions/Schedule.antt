-- ===== src/Missions/Schedule.antt =====
-- backend/app/missions/schedule.py: the recurring schedule of a mission and the backoff of a
-- blocked source. Instants are microseconds; the table's CHECKs keep the counters from being
-- negative, so they are natural numbers, and the tests `<= 0` are tests for zero.
pub mod Advance
pub mod Backoff
pub mod Due
mod Tests
use aishopping_agent.Common.{
  ℕ, ◌+◌, ◌-◌, ◌*◌, ◌/◌, ◌^◌, Bool, true, false, not, ◌&&◌, ◌||◌, Option, none, some, List, [], ◌∷◌,
  ltb, leb, ◌==◌, if◌then◌else◌, keep, sort_by, take,
}
use aishopping_agent.Common.Time.{Datetime, require_aware, minutes}
use Prim.Native.Nat.{min}

pub record MissionSchedule : Type 0 where
  pub id : ℕ
  pub mission_id : ℕ
  pub is_enabled : Bool
  pub interval_minutes : ℕ
  pub next_run_at : ℕ
  pub last_run_at : Option ℕ
  pub updated_at : ℕ

-- The `ValueError`s of this file, one for each message.
pub data ScheduleError : Type 0 where
  not_aware disabled interval_not_positive not_due : ScheduleError
  base_not_positive cap_not_positive limit_out_of_range : ScheduleError

pub data Result (A : Type 0) : Type 0 where
  ok : A → Result A
  err : ScheduleError → Result A

advance_from : MissionSchedule → ℕ → Result MissionSchedule
advance_from s started_at =
    if not s.is_enabled
    then err disabled
    else if s.interval_minutes == 0
    then err interval_not_positive
    else if ltb started_at s.next_run_at
    then err not_due
    else (let interval = minutes s.interval_minutes in
        let elapsed = started_at - s.next_run_at in
        let steps = elapsed / interval + 1 in
        ok (record s {
          last_run_at = some started_at;
          next_run_at = s.next_run_at + interval * steps;
          updated_at = started_at;
        }))

on_aware {ℓ} : {A : Type ℓ} → Option ℕ → A → (ℕ → A) → A
on_aware none refused go = refused
on_aware (some t) refused go = go t

unfoldable pub advance_schedule : MissionSchedule → Datetime → Result MissionSchedule
unfolding advance_from on_aware
advance_schedule s started_at = on_aware (require_aware started_at) (err not_aware) (advance_from s)

-- `(consecutive_blocks, delay_minutes)`
unfoldable pub next_backoff : ℕ → ℕ → ℕ → ℕ × ℕ
next_backoff base blocks cap =
    if ltb 0 blocks && leb cap (base * 2 ^ blocks)
    then (blocks, cap)
    else (blocks + 1, min (base * 2 ^ (blocks + 1)) cap)

unfoldable pub next_source_backoff : ℕ → ℕ → ℕ → Result (ℕ × ℕ)
unfolding next_backoff
next_source_backoff base blocks cap =
    if base == 0
    then err base_not_positive
    else if cap == 0
    then err cap_not_positive
    else ok (next_backoff base blocks cap)

-- A row of `mission_schedules` joined to its mission; `is_locked` is a row that another
-- transaction holds, which `SKIP LOCKED` passes over.
pub record ScheduleRow : Type 0 where
  pub schedule : MissionSchedule
  pub mission_is_active : Bool
  pub mission_expires_at : Option ℕ
  pub is_locked : Bool

abbrev pub expires_after : Option ℕ → ℕ → Bool
expires_after none due_at = true
expires_after (some t) due_at = ltb due_at t

unfoldable pub is_due : ℕ → ScheduleRow → Bool
is_due due_at r =
    r.schedule.is_enabled
    && leb r.schedule.next_run_at due_at
    && r.mission_is_active
    && expires_after r.mission_expires_at due_at
    && not r.is_locked

-- `ORDER BY next_run_at, id`
unfoldable pub due_order : ScheduleRow → ScheduleRow → Bool
due_order a b =
    ltb a.schedule.next_run_at b.schedule.next_run_at
    || (a.schedule.next_run_at == b.schedule.next_run_at && leb a.schedule.id b.schedule.id)

unfoldable pub find_due_schedules : List ScheduleRow → Datetime → ℕ → Result (List ScheduleRow)
unfolding on_aware
find_due_schedules rows due_at limit = on_aware (require_aware due_at) (err not_aware) (λ now.
    if leb 1 limit && leb limit 1000
    then ok (take limit (sort_by due_order (keep (is_due now) rows)))
    else err limit_out_of_range)

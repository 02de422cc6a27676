-- ===== src/Missions/Lifecycle/Step.antt =====
-- `transition_mission` itself: its guards in order, and its writes.
use aishopping_agent.Common.{
  ℕ, ◌+◌, Bool, true, false, not, ◌||◌, Option, none, some, List, [], ◌∷◌, ltb, ◌==◌, if◌then◌else◌,
  length, any_of,
}
use aishopping_agent.Common.Time.{Datetime, require_aware}
use aishopping_agent.Missions.Data.{
  MissionStatus, MissionCommand, activate, resume, cancel, expire, ScheduleSwitch, Mission,
  is_active, find_mission, replace_mission,
}
use aishopping_agent.Missions.Lifecycle.{
  ItemStore, Transition, Db, TransitionError, bad_actor_type, blank_reason, not_aware, not_found,
  version_conflict, invalid_transition, no_criteria, no_source, past_deadline, before_deadline,
  quota, Result, ok, err, next_status, deadline_reached, activate_monitoring, deactivate_monitoring,
}
use aishopping_agent.Quotas.{
  User, Settings, QuotaExceeded, resolve_quota_limits, get_quota_usage,
  check_mission_activation_quota,
}

-- What a transition is asked to do.
pub record Request : Type 0 where
  pub mission_id : ℕ
  pub command : MissionCommand
  pub expected_state_version : ℕ
  pub actor_type : List ℕ
  pub actor_id : Option ℕ
  pub reason : Option (List ℕ)

-- The surroundings: `str.isspace`, the row of a user, the settings.
pub record Context : Type 0 where
  pub is_space : ℕ → Bool
  pub owner : ℕ → User
  pub settings : Settings

-- `not text.strip()`
abbrev is_blank : (ℕ → Bool) → List ℕ → Bool
is_blank is_space t = not (any_of (λ c. not (is_space c)) t)

is_blank_reason : (ℕ → Bool) → Option (List ℕ) → Bool
is_blank_reason is_space none = false
is_blank_reason is_space (some t) = is_blank is_space t

-- The checks on the arguments, before the row is read.
unfoldable pub invalid_argument : Context → Request → Option TransitionError
unfolding is_blank_reason
invalid_argument c q =
    if is_blank c.is_space q.actor_type || ltb 32 (length q.actor_type)
    then some bad_actor_type
    else if is_blank_reason c.is_space q.reason
    then some blank_reason
    else none

on_quota : Option QuotaExceeded → Option TransitionError
on_quota none = none
on_quota (some e) = some (quota e)

abbrev is_empty : List ℕ → Bool
is_empty [] = true
is_empty (x ∷ xs) = false

-- What ACTIVATE and RESUME require: criteria, a source, and room in the owner's quota.
activation_refused : Context → Db → Mission → ℕ → Option TransitionError
unfolding on_quota
activation_refused c db m now =
    if not m.has_criteria
    then some no_criteria
    else if is_empty m.sources
    then some no_source
    else on_quota (
        check_mission_activation_quota (get_quota_usage db.missions db.receipts m.user_id now)
          (resolve_quota_limits (c.owner m.user_id) c.settings) (length m.sources))

or_else : Option TransitionError → Option TransitionError → Option TransitionError
or_else none e = e
or_else (some x) e = some x

unfoldable pub condition_refused :
    MissionCommand → Context → Db → Mission → ℕ → Option TransitionError
unfolding activation_refused or_else
condition_refused activate c db m now = activation_refused c db m now
condition_refused resume c db m now =
    or_else (activation_refused c db m now)
      (if deadline_reached m.expires_at now then some past_deadline else none)
condition_refused expire c db m now =
    if deadline_reached m.expires_at now then none else some before_deadline
condition_refused _ c db m now = none

switch_off : MissionCommand → ℕ → Option ScheduleSwitch → Option ScheduleSwitch
switch_off cancel now (some s) = some (record { is_enabled = false; updated_at = now })
switch_off _ now s = s

-- The row after the transition.
unfoldable pub moved : MissionStatus → MissionCommand → ℕ → Mission → Mission
unfolding switch_off
moved next command now m = record m {
  status = next;
  state_version = m.state_version + 1;
  updated_at = now;
  schedule = switch_off command now m.schedule;
}

-- The collection of stores follows the mission into and out of `active`.
unfoldable pub monitoring_after : MissionStatus → Db → Mission → ℕ → ℕ → ℕ → Option ItemStore
monitoring_after next db m now =
    if is_active next
    then activate_monitoring m now db.item_store
    else if is_active m.status
    then deactivate_monitoring m now db.missions db.item_store
    else db.item_store

unfoldable pub apply : Request → Db → Mission → MissionStatus → ℕ → Result
unfolding moved monitoring_after
apply q db m next now =
    let written : Transition = record {
      mission_id = m.id;
      from_status = m.status;
      to_status = next;
      command = q.command;
      actor_type = q.actor_type;
      actor_id = q.actor_id;
      reason = q.reason;
      transitioned_at = now;
    } in
    ok written (record db {
      missions = replace_mission q.mission_id (moved next q.command now) db.missions;
      item_store = monitoring_after next db m now;
      transitions = written ∷ db.transitions;
    })

unfoldable pub checked : Option TransitionError → Result → Result
checked none r = r
checked (some e) r = err e

unfoldable pub on_status : Context → Request → Db → Mission → ℕ → Option MissionStatus → Result
unfolding condition_refused checked apply
on_status c q db m now none = err invalid_transition
on_status c q db m now (some next) =
    checked (condition_refused q.command c db m now) (apply q db m next now)

unfoldable pub on_mission : Context → Request → Db → ℕ → Option Mission → Result
unfolding on_status
on_mission c q db now none = err not_found
on_mission c q db now (some m) =
    if not (m.state_version == q.expected_state_version)
    then err version_conflict
    else on_status c q db m now (next_status m.status q.command)

unfoldable pub on_time : Context → Request → Db → Option ℕ → Result
unfolding on_mission
on_time c q db none = err not_aware
on_time c q db (some now) = on_mission c q db now (find_mission q.mission_id db.missions)

unfoldable pub transition_mission : Context → Request → Db → Datetime → Result
unfolding invalid_argument on_time
transition_mission c q db at = checked (invalid_argument c q) (on_time c q db (require_aware at))

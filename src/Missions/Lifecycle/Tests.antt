-- ===== src/Missions/Lifecycle/Tests.antt =====
-- A paused mission with two stores is resumed.
use aishopping_agent.Common.{
  any_of, count_of, find_first, ℕ, ◌+◌, ◌≡◌, refl, arith, true, false, [], ◌∷◌, none, some, Option,
}
use aishopping_agent.Common.Time.{aware}
use aishopping_agent.Missions.Data.{Mission, active, paused, cancelled, resume, find_mission}
use aishopping_agent.Missions.Lifecycle.{
  next_status, deadline_reached, needs, ItemStore, Transition, Db, Result, ok, err,
  version_conflict,
}
use aishopping_agent.Missions.Lifecycle.Step.{
  Request, Context, invalid_argument, transition_mission, apply,
}
use aishopping_agent.Missions.Lifecycle.Stores.{enabled}
use aishopping_agent.Missions.Lifecycle.Demand.{MeetsDemand, transition-MeetsDemand}
use aishopping_agent.Missions.Lifecycle.Capacity.{WithinQuota, transition-WithinQuota}
use aishopping_agent.Missions.Lifecycle.Versions.{transition-version}
use aishopping_agent.Quotas.{
  check_mission_activation_quota, resolve_quota_limits, get_quota_usage, slots_of, is_active_of,
  User, UserRole, Settings,
}

abbrev mission : Mission
mission = record {
  id = 7;
  user_id = 5;
  status = paused;
  expires_at = some 5000;
  state_version = 3;
  updated_at = 100;
  has_criteria = true;
  sources = 12 ∷ 11 ∷ [];
  item_link = some 1;
  schedule = none;
}

no_rows : ℕ → ℕ → Option ItemStore
no_rows item store = none

abbrev db : Db
db = record { missions = mission ∷ []; item_store = no_rows; transitions = []; receipts = [] }

abbrev buyer : User
buyer = record {
  id = 5;
  role = UserRole.user;
  max_active_missions_override = none;
  max_store_slots_override = none;
  max_daily_searches_override = none;
}

abbrev settings : Settings
settings = record {
  default_max_active_missions = 2;
  default_max_active_missions_admin_dev = none;
  default_max_store_slots = 4;
  default_max_store_slots_admin_dev = none;
  default_max_daily_searches = 30;
}

abbrev context : Context
context = record { is_space = λ c. false; owner = λ id. buyer; settings = settings }

abbrev request : Request
request = record {
  mission_id = 7;
  command = resume;
  expected_state_version = 3;
  actor_type = 117 ∷ [];
  actor_id = some 5;
  reason = none;
}

abbrev written : Transition
written = record {
  mission_id = 7;
  from_status = paused;
  to_status = active;
  command = resume;
  actor_type = 117 ∷ [];
  actor_id = some 5;
  reason = none;
  transitioned_at = 1000;
}

after : Result → Db
after (ok t d) = d
after (err e) = db

resumed :
    transition_mission context request db (aware 1000)
    ≡ ok written (after (apply request db mission active 1000))
unfolding after transition_mission any_of find_mission find_first next_status
    check_mission_activation_quota resolve_quota_limits get_quota_usage count_of slots_of
    deadline_reached
resumed = refl

no_demand : (item store : ℕ) → enabled no_rows item store ≡ any_of (needs item store) db.missions
unfolding no_rows any_of needs
no_demand item store = ground arith

db-MeetsDemand : MeetsDemand db
db-MeetsDemand = record { unique = (tt, tt); demand = no_demand }

none_active : (user : ℕ) → count_of (is_active_of user) db.missions ≡ 0
unfolding count_of
none_active user = ground arith

no_slots : (user : ℕ) → slots_of user db.missions ≡ 0
unfolding slots_of
no_slots user = ground arith

db-WithinQuota : WithinQuota context db
db-WithinQuota = record {
  missions_fit = λ user. omega (arith, none_active user);
  slots_fit = λ user. omega (arith, no_slots user);
}

transition-MeetsDemand_example : MeetsDemand (after (apply request db mission active 1000))
transition-MeetsDemand_example =
    transition-MeetsDemand context request db (aware 1000) db-MeetsDemand resumed

transition-WithinQuota_example : WithinQuota context (after (apply request db mission active 1000))
transition-WithinQuota_example =
    transition-WithinQuota context request db (aware 1000) db-WithinQuota resumed

transition-version_example :
    ((m : Mission) × (find_mission 7 (after (apply request db mission active 1000)).missions
        ≡ some m)
      × (m.state_version ≡ 3 + 1))
    × (transition_mission context request
          (after (apply request db mission active 1000))
          (aware 1001)
        ≡ err version_conflict)
unfolding any_of invalid_argument
transition-version_example =
    transition-version context request request db (aware 1000) 1001 resumed refl refl refl

abbrev cancelled_db : Db
cancelled_db = record db { missions = record mission { status = cancelled } ∷ [] }

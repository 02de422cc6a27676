-- ===== src/Missions/Lifecycle.antt =====
-- backend/app/missions/service.py: `transition_mission`, with the functions of
-- backend/app/missions/monitoring.py that it calls to switch the collection of stores on and off.
-- The tables are one record, and a transition is a step on it as it reads them. The mission's row
-- and the rows of an item at a store are locked; what the quota counts of the user's other missions
-- is read without a lock, so the step stands for a transition that no other of that user overlaps.
-- The asynchronous twins differ by `await` only. `is_space` is Python's `str.isspace` on one
-- character.
pub mod Step
pub mod Rows
pub mod Stores
pub mod Demand
pub mod Capacity
pub mod Versions
mod Tests
use aishopping_agent.Common.{
  ℕ, zero, suc, ◌+◌, Bool, true, false, not, ◌&&◌, ◌||◌, Option, none, some, List, [], ◌∷◌, ltb,
  leb, ◌==◌, if◌then◌else◌, length, any_of, is_none, opt_eq, sort_by,
}
use aishopping_agent.Common.Time.{Datetime, require_aware}
use aishopping_agent.Missions.Data.{
  MissionStatus, draft, active, paused, completed, cancelled, expired, MissionCommand, activate,
  pause, resume, complete, cancel, expire, ScheduleSwitch, Mission, is_active, find_mission,
  replace_mission, contains,
}
use aishopping_agent.Quotas.{
  QuotaExceeded, QuotaLimits, SearchReceipt, get_quota_usage, check_mission_activation_quota,
}

-- `MonitoringItemStore`
pub record ItemStore : Type 0 where
  pub is_enabled : Bool
  pub next_run_at : Option ℕ
  pub last_run_at : Option ℕ
  pub next_eligible_at : Option ℕ
  pub consecutive_blocks : ℕ
  pub updated_at : ℕ

-- `MissionTransition`
pub record Transition : Type 0 where
  pub mission_id : ℕ
  pub from_status : MissionStatus
  pub to_status : MissionStatus
  pub command : MissionCommand
  pub actor_type : List ℕ
  pub actor_id : Option ℕ
  pub reason : Option (List ℕ)
  pub transitioned_at : ℕ

pub record Db : Type 0 where
  pub missions : List Mission
  pub item_store : ℕ → ℕ → Option ItemStore
  pub transitions : List Transition
  pub receipts : List SearchReceipt

pub data TransitionError : Type 0 where
  bad_actor_type blank_reason not_aware not_found version_conflict : TransitionError
  invalid_transition no_criteria no_source past_deadline before_deadline : TransitionError
  quota : QuotaExceeded → TransitionError

pub data Result : Type 0 where
  ok : Transition → Db → Result
  err : TransitionError → Result

-- `TRANSITIONS`
unfoldable pub next_status : MissionStatus → MissionCommand → Option MissionStatus
next_status draft activate = some active
next_status draft cancel = some cancelled
next_status draft expire = some expired
next_status active pause = some paused
next_status active complete = some completed
next_status active cancel = some cancelled
next_status active expire = some expired
next_status paused resume = some active
next_status paused complete = some completed
next_status paused cancel = some cancelled
next_status paused expire = some expired
next_status _ _ = none

unfoldable pub deadline_reached : Option ℕ → ℕ → Bool
deadline_reached none now = false
deadline_reached (some t) now = leb t now

-- A write of one row of `monitoring_item_stores`.
unfoldable pub set_item_store :
    ℕ → ℕ → ItemStore → (ℕ → ℕ → Option ItemStore) → ℕ → ℕ → Option ItemStore
set_item_store item store row f i s = if i == item && s == store then some row else f i s

enabled_row : Option ItemStore → ℕ → ItemStore
enabled_row none now = record {
  is_enabled = true;
  next_run_at = some now;
  last_run_at = none;
  next_eligible_at = none;
  consecutive_blocks = 0;
  updated_at = now;
}
enabled_row (some row) now = record row { is_enabled = true; updated_at = now }

-- `_activate_item_stores`, over the stores in order: INSERT … ON CONFLICT DO UPDATE
unfoldable pub activate_item_stores :
    ℕ → List ℕ → ℕ → (ℕ → ℕ → Option ItemStore) → ℕ → ℕ → Option ItemStore
unfolding set_item_store enabled_row
activate_item_stores item [] now f = f
activate_item_stores item (store ∷ stores) now f =
    activate_item_stores item stores now
      (set_item_store item store (enabled_row (f item store) now) f)

-- A mission that is active, linked to the item, and selects the store.
unfoldable pub needs : ℕ → ℕ → Mission → Bool
needs item store m =
    opt_eq m.item_link (some item) && is_active m.status && contains store m.sources

-- `_other_active_mission_needs_store`
unfoldable pub other_active_mission_needs_store : ℕ → ℕ → ℕ → List Mission → Bool
other_active_mission_needs_store item store excluding ms =
    any_of (λ m. not (m.id == excluding) && needs item store m) ms

unfoldable pub disable_unless :
    Bool → ℕ → ℕ → ℕ → Option ItemStore → (ℕ → ℕ → Option ItemStore) → ℕ → ℕ → Option ItemStore
disable_unless needed item store now none f i s = f i s
disable_unless needed item store now (some row) f i s =
    if not row.is_enabled
    then f i s
    else if needed
    then f i s
    else set_item_store item store (record row { is_enabled = false; updated_at = now }) f i s

-- `_deactivate_item_stores_if_unneeded`
unfoldable pub deactivate_item_stores_if_unneeded :
    ℕ → List ℕ → ℕ → ℕ → List Mission → (ℕ → ℕ → Option ItemStore) → ℕ → ℕ → Option ItemStore
unfolding disable_unless set_item_store
deactivate_item_stores_if_unneeded item [] excluding now ms f = f
deactivate_item_stores_if_unneeded item (store ∷ stores) excluding now ms f =
    deactivate_item_stores_if_unneeded item stores excluding now ms (
      disable_unless (other_active_mission_needs_store item store excluding ms) item store now
        (f item store) f)

on_link :
    Option ℕ
    → (ℕ → ℕ → Option ItemStore)
    → (ℕ → ℕ → ℕ → Option ItemStore)
    → ℕ
    → ℕ
    → Option ItemStore
on_link none f change = f
on_link (some item) f change = change item

-- `activate_monitoring_item_stores` and `deactivate_monitoring_item_stores_if_unneeded`
unfoldable pub activate_monitoring :
    Mission → ℕ → (ℕ → ℕ → Option ItemStore) → ℕ → ℕ → Option ItemStore
unfolding on_link
activate_monitoring m now f =
    on_link m.item_link f (λ item. activate_item_stores item (sort_by leb m.sources) now f)

unfoldable pub deactivate_monitoring :
    Mission → ℕ → List Mission → (ℕ → ℕ → Option ItemStore) → ℕ → ℕ → Option ItemStore
unfolding on_link
deactivate_monitoring m now ms f =
    on_link m.item_link f
      (λ item. deactivate_item_stores_if_unneeded item (sort_by leb m.sources) m.id now ms f)

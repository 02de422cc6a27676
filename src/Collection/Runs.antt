-- ===== src/Collection/Runs.antt =====
-- backend/app/collection/persistence.py and models.py: runs of a collection, their end, and the
-- indexes that let one at a time run for an item or a mission at one shop.
use aishopping_agent.Common.{
  ℕ, List, [], ◌∷◌, Option, none, some, Bool, true, false, not, ◌&&◌, ◌==◌, ltb, if◌then◌else◌,
  any_of,
}

pub data CollectionRunStatus : Type 0 where
  running succeeded failed : CollectionRunStatus

pub record CollectionRun : Type 0 where
  pub id : ℕ
  pub mission_id : Option ℕ
  pub monitoring_item_id : Option ℕ
  pub fairness_owner_user_id : Option ℕ
  pub store_id : ℕ
  pub status : CollectionRunStatus
  pub started_at : ℕ
  pub finished_at : Option ℕ

unfoldable pub is_running : CollectionRunStatus → Bool
is_running running = true
is_running _ = false

unfoldable pub is_key : Option ℕ → ℕ → Bool
is_key none id = false
is_key (some x) id = x == id

-- `uq_collection_runs_running_monitoring_item_store`
unfoldable pub has_running : List CollectionRun → ℕ → ℕ → Bool
unfolding is_running is_key
has_running runs item store =
    any_of (λ r. is_running r.status && is_key r.monitoring_item_id item && r.store_id == store)
      runs

-- `uq_collection_runs_running_mission_store`
unfoldable pub has_running_mission : List CollectionRun → ℕ → ℕ → Bool
unfolding is_running is_key
has_running_mission runs mission store =
    any_of (λ r. is_running r.status && is_key r.mission_id mission && r.store_id == store) runs

-- `CollectionRunStateError`, one for each message.
pub data CollectionRunStateError : Type 0 where
  terminal_required run_not_found already_terminal precedes_start : CollectionRunStateError

pub data Finished : Type 0 where
  finished : List CollectionRun → Finished
  refused : CollectionRunStateError → Finished

unfoldable pub finish_found :
    CollectionRun → CollectionRunStatus → ℕ → List CollectionRun → Finished
finish_found run status at rest =
    if not (is_running run.status)
    then refused already_terminal
    else if ltb at run.started_at
    then refused precedes_start
    else finished (record run { status = status; finished_at = some at } ∷ rest)

unfoldable pub before : CollectionRun → Finished → Finished
before run (finished rows) = finished (run ∷ rows)
before run (refused e) = refused e

unfoldable pub finish_run : List CollectionRun → ℕ → CollectionRunStatus → ℕ → Finished
unfolding finish_found before
finish_run [] run_id status at = refused run_not_found
finish_run (r ∷ rs) run_id status at =
    let rest = finish_run rs run_id status at in
    if r.id == run_id then finish_found r status at rs else before r rest

-- backend/app/collection/persistence.py
unfoldable pub finish_collection_run : List CollectionRun → ℕ → CollectionRunStatus → ℕ → Finished
unfolding finish_run
finish_collection_run runs run_id status at =
    if is_running status then refused terminal_required else finish_run runs run_id status at

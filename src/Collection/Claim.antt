-- ===== src/Collection/Claim.antt =====
-- backend/app/collection/shared_claim.py and `_claim_legacy_source_attempt` of orchestration.py:
-- the claim of the collection of one item, or of one mission's own source, at one shop, the
-- throttle of the shop (backend/app/collection/fairness.py) that both paths share, and the backoff
-- after a block. A table is a function of its primary key. A claim locks the row of its item, or of
-- its mission, at the shop, and reads and writes these tables as they are then; the throttle's row
-- it reads without a lock. The identity of an item stands for the criteria of the search that are
-- made of it. The identifier that `uuid4` draws for a run is an argument.
pub mod History
pub mod Spacing
pub mod Overlap
pub mod Recollection
pub mod Tests
use aishopping_agent.Common.{
  ℕ, ◌+◌, List, [], ◌∷◌, Option, none, some, Bool, true, false, not, ◌&&◌, ◌||◌, ◌==◌, ltb, leb,
  if◌then◌else◌, any_of, keep, map, length,
}
use aishopping_agent.Common.Texts.{codes, text_in}
use aishopping_agent.Common.Time.{minutes}
use aishopping_agent.Collection.Cadence.{
  CadenceConfig, CadenceDecision, CadenceMode, normal, promo_calendar, high_activity, Market,
  StoreActivityState, resolve_collection_cadence, sample_next_run_at,
}
use aishopping_agent.Missions.Schedule.{next_source_backoff, Result, ok, err}
use aishopping_agent.Collection.Runs.{
  CollectionRun, CollectionRunStateError, CollectionRunStatus, Finished, already_terminal, before,
  failed, finish_collection_run, finish_found, finish_run, finished, has_running,
  has_running_mission, is_key, is_running, precedes_start, refused, run_not_found, running,
  succeeded, terminal_required,
}
use aishopping_agent.Collection.Tables.{
  Catalog, ClaimAttempt, ClaimedCollection, Db, MissionMonitoringItem, MissionSource,
  MonitoringItem, MonitoringItemStore, SharedClaim, Store, StoreThrottleState,
}

abbrev pub v1_source_codes : List (List ℕ)
v1_source_codes =
    codes "pichau"
    ∷ codes "terabyte"
    ∷ codes "amazon"
    ∷ codes "kabum"
    ∷ codes "magalu"
    ∷ codes "mercadolivre"
    ∷ []

unfoldable pub put_item_store :
    ℕ
    → ℕ
    → MonitoringItemStore
    → (ℕ → ℕ → Option MonitoringItemStore)
    → ℕ
    → ℕ
    → Option MonitoringItemStore
put_item_store item store row table = λ i s. if i == item && s == store then some row else table i s

unfoldable pub put_source :
    ℕ → ℕ → MissionSource → (ℕ → ℕ → Option MissionSource) → ℕ → ℕ → Option MissionSource
put_source mission store row table =
    λ m s. if m == mission && s == store then some row else table m s

unfoldable pub put_throttle :
    ℕ → StoreThrottleState → (ℕ → Option StoreThrottleState) → ℕ → Option StoreThrottleState
put_throttle store row table = λ s. if s == store then some row else table s

unfoldable pub is_future : Option ℕ → ℕ → Bool
is_future none now = false
is_future (some t) now = ltb now t

unfoldable pub is_throttled : Option StoreThrottleState → ℕ → Bool
unfolding is_future
is_throttled none now = false
is_throttled (some t) now = is_future t.next_allowed_at now

unfoldable pub mission_ids_of : List MissionMonitoringItem → ℕ → List ℕ
mission_ids_of links item = map (λ l. l.mission_id) (keep (λ l. l.monitoring_item_id == item) links)

unfoldable pub advance_store_throttle : ℕ → ℕ → ℕ → Db → Db
unfolding put_throttle
advance_store_throttle store claimed_at min_interval db = record db {
  throttle =
      put_throttle store
        (record { next_allowed_at = some (claimed_at + min_interval); updated_at = claimed_at })
        db.throttle;
}

unfoldable pub is_high : CadenceMode → Bool
is_high high_activity = true
is_high _ = false

unfoldable pub start_shared_run : ℕ → ℕ → ℕ → Option ℕ → ℕ → Db → Db
start_shared_run run_id item store owner now db =
    let run : CollectionRun = record {
      id = run_id;
      mission_id = none;
      monitoring_item_id = some item;
      fairness_owner_user_id = owner;
      store_id = store;
      status = running;
      started_at = now;
      finished_at = none;
    } in
    record db { runs = run ∷ db.runs }

unfoldable pub start_mission_run : ℕ → ℕ → ℕ → ℕ → Db → Db
start_mission_run run_id mission store now db =
    let run : CollectionRun = record {
      id = run_id;
      mission_id = some mission;
      monitoring_item_id = none;
      fairness_owner_user_id = none;
      store_id = store;
      status = running;
      started_at = now;
      finished_at = none;
    } in
    record db { runs = run ∷ db.runs }

unfoldable pub apply_backoff : ℕ → ℕ → ℕ → MonitoringItemStore → Result (ℕ × ℕ) → Db → Db
unfolding put_item_store
apply_backoff item store failed_at row (err e) db = db
apply_backoff item store failed_at row (ok next) db =
    let advanced : MonitoringItemStore = record row {
      consecutive_blocks = next.0;
      next_eligible_at = some (failed_at + minutes next.1);
      updated_at = failed_at;
    } in
    record db { item_stores = put_item_store item store advanced db.item_stores }

-- A base interval of no minutes raises; the caller's is that of a checked configuration.
unfoldable pub apply_shared_backoff : ℕ → ℕ → ℕ → ℕ → Option MonitoringItemStore → Db → Db
unfolding apply_backoff
apply_shared_backoff item store base failed_at none db = db
apply_shared_backoff item store base failed_at (some row) db =
    apply_backoff item store failed_at row (next_source_backoff base row.consecutive_blocks 360) db

unfoldable pub reset_shared_backoff : ℕ → ℕ → ℕ → Option MonitoringItemStore → Db → Db
unfolding put_item_store
reset_shared_backoff item store now none db = db
reset_shared_backoff item store now (some row) db =
    if row.consecutive_blocks == 0 && has_no row.next_eligible_at then db else record db {
      item_stores =
          put_item_store item store
            (record row { consecutive_blocks = 0; next_eligible_at = none; updated_at = now })
            db.item_stores;
    }
  where
    has_no : Option ℕ → Bool
    has_no none = true
    has_no (some t) = false

-- Steps 2 and 3: what is checked again under the lock of `row`, the throttle, which is read without
-- a lock, and the unique index.
unfoldable pub may_claim : ℕ → ℕ → MonitoringItemStore → ℕ → Db → Bool
unfolding is_future is_throttled has_running
may_claim item store row now db =
    row.is_enabled
    && not (is_future row.next_run_at now)
    && not (is_future row.next_eligible_at now)
    && not (is_throttled (db.throttle store) now)
    && not (has_running db.runs item store)

unfoldable pub may_claim_source : ℕ → ℕ → MissionSource → ℕ → Db → Bool
unfolding is_future is_throttled has_running_mission
may_claim_source mission store row now db =
    not (is_future row.next_run_at now)
    && not (is_future row.next_eligible_at now)
    && not (is_throttled (db.throttle store) now)
    && not (has_running_mission db.runs mission store)

module _ (uniform : ℕ → ℕ → ℕ) (catalog : Catalog) (config : CadenceConfig) (min_interval : ℕ) where
  unfoldable pub advance_monitoring_item_store : ℕ → ℕ → MonitoringItemStore → ℕ → Db → Db
  unfolding put_item_store mission_ids_of is_high
  advance_monitoring_item_store item store row started_at db =
      let resolved =
        resolve_collection_cadence config catalog.market db.activity store item
          (mission_ids_of catalog.links item) started_at in
      let advanced : MonitoringItemStore = record row {
        last_run_at = some started_at;
        next_run_at = some (sample_next_run_at uniform started_at resolved.0);
        updated_at = started_at;
      } in
      record db {
        item_stores = put_item_store item store advanced db.item_stores;
        activity = resolved.1;
        high_activity_notify = db.high_activity_notify || is_high resolved.0.mode;
      }

  -- Steps 4 and 5: the run, the schedule and the throttle.
  unfoldable pub register_claim : ℕ → ℕ → ℕ → MonitoringItemStore → Option ℕ → ℕ → Db → Db
  unfolding start_shared_run advance_monitoring_item_store advance_store_throttle
  register_claim run_id item store row owner now db =
      advance_store_throttle store now min_interval (
        advance_monitoring_item_store item store row now
          (start_shared_run run_id item store owner now db))

  claim_locked :
      ℕ
      → MonitoringItem
      → Store
      → ℕ
      → ℕ
      → Option MonitoringItemStore
      → Option ℕ
      → ℕ
      → Db
      → Option SharedClaim × Db
  unfolding may_claim register_claim
  claim_locked run_id i s item store none owner now db = (none, db)
  claim_locked run_id i s item store (some row) owner now db =
      if may_claim item store row now db
      then (
        some (record {
          run_id = run_id;
          canonical_identity = i.canonical_identity;
          store_code = s.code;
          monitoring_item_id = item;
          store_id = store;
        }),
        register_claim run_id item store row owner now db,
      )
      else (none, db)

  claim_found :
      ℕ → Option MonitoringItem → Option Store → ℕ → ℕ → Option ℕ → ℕ → Db → Option SharedClaim × Db
  unfolding claim_locked
  claim_found run_id (some i) (some s) item store owner now db =
      if not s.is_active || not (text_in s.code v1_source_codes)
      then (none, db)
      else claim_locked run_id i s item store (db.item_stores item store) owner now db
  claim_found run_id _ _ item store owner now db = (none, db)

  -- `_claim_shared_collection_in_session`, on the tables that it reads; what another claim at the shop
  -- writes to the throttle in the meantime is not in them.
  unfoldable pub claim_shared_collection : ℕ → ℕ → ℕ → Option ℕ → ℕ → Db → Option SharedClaim × Db
  unfolding claim_found
  claim_shared_collection run_id item store owner now db =
      claim_found run_id (catalog.items item) (catalog.stores store) item store owner now db

  unfoldable pub advance_source : ℕ → ℕ → MissionSource → ℕ → Db → Db
  unfolding put_source is_high
  advance_source mission store row now db =
      let resolved =
        resolve_collection_cadence config catalog.market db.activity store mission (mission ∷ [])
          now in
      let advanced : MissionSource = record row {
        last_run_at = some now;
        next_run_at = some (sample_next_run_at uniform now resolved.0);
      } in
      record db {
        sources = put_source mission store advanced db.sources;
        activity = resolved.1;
        high_activity_notify = db.high_activity_notify || is_high resolved.0.mode;
      }

  unfoldable pub register_source : ℕ → ℕ → ℕ → MissionSource → ℕ → Db → Db
  unfolding start_mission_run advance_source advance_store_throttle
  register_source run_id mission store row now db =
      advance_store_throttle store now min_interval
        (advance_source mission store row now (start_mission_run run_id mission store now db))

  source_locked : ℕ → ClaimAttempt → Option MissionSource → ℕ → Db → Option ClaimedCollection × Db
  unfolding may_claim_source register_source
  source_locked run_id a none now db = (none, db)
  source_locked run_id a (some row) now db =
      if may_claim_source a.mission_id a.store_id row now db
      then (
        some (record { run_id = run_id; attempt = a; claimed_at = now }),
        register_source run_id a.mission_id a.store_id row now db,
      )
      else (none, db)

  -- `_claim_legacy_source_attempt`, with the same unlocked read of the throttle
  unfoldable pub claim_source : ℕ → ClaimAttempt → ℕ → Db → Option ClaimedCollection × Db
  unfolding source_locked
  claim_source run_id a now db = source_locked run_id a (db.sources a.mission_id a.store_id) now db

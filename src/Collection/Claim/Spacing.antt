-- ===== src/Collection/Claim/Spacing.antt =====
-- backend/app/collection/shared_claim.py: claims at one shop that do not overlap keep their distance.
use mathlib.Core.Path.{subst, sym}
use aishopping_agent.Common.{
  true, Bool, ◌==◌, keep, inl, inr, Bool-cases, ◌⊎◌, ℕ, ◌+◌, ◌≤◌, ◌≡◌, refl, false, List, [], ◌∷◌,
  Option, none, some, arith,
}
use aishopping_agent.Collection.Cadence.{CadenceConfig}
use aishopping_agent.Collection.Claim.{
  Bool, true, register_source, start_mission_run, advance_source, start_shared_run,
  advance_monitoring_item_store, advance_store_throttle, err, ok, Result, put_throttle,
  apply_backoff, keep, is_throttled, apply_shared_backoff, reset_shared_backoff, register_claim,
}
use aishopping_agent.Collection.Tables.{
  ClaimAttempt, ClaimedCollection, MissionSource, MonitoringItemStore, SharedClaim, Catalog, Db,
}
use aishopping_agent.Collection.Runs.{Finished, finished, refused, finish_collection_run}
use aishopping_agent.Collection.Claim.History.{
  fresh, IsSpaced, claim_mission, IsSourceGranted, claim_source_cases, may_claim_source_gives,
  Claimed, IsPaced, IsPaced-cons, allowed_at, allowed_past, Action, claim, block, recover, finish,
  World, logged, finished_runs, may_claim_gives, step, run, IsGranted, claim_cases,
}

-- The claims of one shop.
abbrev pub at_store : ℕ → List Claimed → List Claimed
at_store s log = keep (λ c. s == c.store) log

module _ (uniform : ℕ → ℕ → ℕ) (catalog : Catalog) (config : CadenceConfig) (min_interval : ℕ) where
  abbrev IsThrottled : ℕ → Db → List Claimed → Type 0
  IsThrottled s db log = IsPaced min_interval (allowed_at (db.throttle s)) (at_store s log)

  put_throttle-Paced :
      (shared : Bool) (s item store now : ℕ) (db : Db) (log : List Claimed)
      → is_throttled (db.throttle store) now ≡ false
      → IsThrottled s db log
      → IsPaced min_interval
          (allowed_at (
            put_throttle store
              (record { next_allowed_at = some (now + min_interval); updated_at = now })
              db.throttle
              s))
          (at_store s (record { is_shared = shared; scope = item; store = store; at = now } ∷ log))
  unfolding put_throttle keep allowed_at
  put_throttle-Paced shared s item store now db log t p = elim (Bool-cases (s == store)) [
    | inl e ↦ rw e (
        IsPaced-cons min_interval (allowed_at (db.throttle s)) (now + min_interval) _ _
          (same_bound (ground arith)) (omega arith) p)
    | inr e ↦ rw e p
  ]
    where
      same_bound : s ≡ store → allowed_at (db.throttle s) ≤ now
      same_bound e =
          subst (λ x. allowed_at (db.throttle x) ≤ now) (sym e)
            (allowed_past (db.throttle store) now t)

  backoff_same_throttle :
      (item store at : ℕ) (row : MonitoringItemStore) (r : Result (ℕ × ℕ)) (db : Db)
      → (apply_backoff item store at row r db).throttle ≡ db.throttle
  unfolding apply_backoff
  backoff_same_throttle item store at row (ok n) db = refl
  backoff_same_throttle item store at row (err e) db = refl

  shared_backoff_same_throttle :
      (item store base at : ℕ) (row : Option MonitoringItemStore) (db : Db)
      → (apply_shared_backoff item store base at row db).throttle ≡ db.throttle
  unfolding apply_shared_backoff
  shared_backoff_same_throttle item store base at none db = refl
  shared_backoff_same_throttle item store base at (some row) db =
      backoff_same_throttle item store at row _ db

  reset_same_throttle :
      (item store at : ℕ) (row : Option MonitoringItemStore) (db : Db)
      → (reset_shared_backoff item store at row db).throttle ≡ db.throttle
  unfolding reset_shared_backoff
  reset_same_throttle item store at none db = refl
  reset_same_throttle item store at (some row) db = ground arith

  finished_same_throttle : (f : Finished) (db : Db) → (finished_runs f db).throttle ≡ db.throttle
  unfolding finished_runs
  finished_same_throttle (finished runs) db = refl
  finished_same_throttle (refused e) db = refl

  same-IsThrottled :
      (s : ℕ) (before after : Db) (log : List Claimed)
      → after.throttle ≡ before.throttle
      → IsThrottled s before log
      → IsThrottled s after log
  same-IsThrottled s before after log e p =
      subst (λ t. IsPaced min_interval (allowed_at (t s)) (at_store s log)) (sym e) p

  pub register_throttle :
      (run_id item store : ℕ) (row : MonitoringItemStore) (owner : Option ℕ) (now : ℕ) (db : Db)
      → (register_claim uniform catalog config min_interval run_id item store row owner now
          db).throttle
        ≡ put_throttle store
            (record { next_allowed_at = some (now + min_interval); updated_at = now })
            db.throttle
  unfolding register_claim advance_store_throttle advance_monitoring_item_store start_shared_run
  register_throttle run_id item store row owner now db = refl

  claim_step-Throttled :
      (s run_id item store : ℕ) (owner : Option ℕ) (now : ℕ) (w : World)
      (o : Option SharedClaim × Db)
      → (o ≡ (none, w.db))
        ⊎ IsGranted uniform catalog config min_interval run_id item store owner now w.db o
      → IsThrottled s w.db w.log
      → IsThrottled s
          (logged (record { is_shared = true; scope = item; store = store; at = now }) o w.log).db
          (logged (record { is_shared = true; scope = item; store = store; at = now }) o w.log).log
  unfolding logged
  claim_step-Throttled s run_id item store owner now w o (inl e) p = rw e p
  claim_step-Throttled s run_id item store owner now w o (inr g) p = rw g.is_left (
      rw (register_throttle run_id item store g.row owner now w.db) (
        put_throttle-Paced true s item store now w.db w.log
          (may_claim_gives item store g.row now w.db g.may).0 p))

  pub register_source_throttle :
      (run_id mission store : ℕ) (row : MissionSource) (now : ℕ) (db : Db)
      → (register_source uniform catalog config min_interval run_id mission store row now
          db).throttle
        ≡ put_throttle store
            (record { next_allowed_at = some (now + min_interval); updated_at = now })
            db.throttle
  unfolding register_source advance_store_throttle advance_source start_mission_run
  register_source_throttle run_id mission store row now db = refl

  source_step-Throttled :
      (s run_id : ℕ) (a : ClaimAttempt) (now : ℕ) (w : World) (o : Option ClaimedCollection × Db)
      → (o ≡ (none, w.db)) ⊎ IsSourceGranted uniform catalog config min_interval run_id a now w.db o
      → IsThrottled s w.db w.log
      → IsThrottled s
          (logged
            (record { is_shared = false; scope = a.mission_id; store = a.store_id; at = now })
            o
            w.log).db
          (logged
            (record { is_shared = false; scope = a.mission_id; store = a.store_id; at = now })
            o
            w.log).log
  unfolding logged
  source_step-Throttled s run_id a now w o (inl e) p = rw e p
  source_step-Throttled s run_id a now w o (inr g) p = rw g.is_left (
      rw (register_source_throttle run_id a.mission_id a.store_id g.row now w.db) (
        put_throttle-Paced false s a.mission_id a.store_id now w.db w.log
          (may_claim_source_gives a.mission_id a.store_id g.row now w.db g.may) p))

  step-Throttled :
      (s : ℕ) (a : Action) (w : World)
      → IsThrottled s w.db w.log
      → IsThrottled s
          (step uniform catalog config min_interval a w).db
          (step uniform catalog config min_interval a w).log
  unfolding step
  step-Throttled s (claim run_id item store owner now) w p =
      claim_step-Throttled s run_id item store owner now w _
        (claim_cases uniform catalog config min_interval run_id item store owner now w.db) p
  step-Throttled s (claim_mission run_id a now) w p =
      source_step-Throttled s run_id a now w _
        (claim_source_cases uniform catalog config min_interval run_id a now w.db) p
  step-Throttled s (block item store base at) w p =
      same-IsThrottled s w.db
        (step uniform catalog config min_interval (block item store base at) w).db w.log
        (shared_backoff_same_throttle item store base at (w.db.item_stores item store) w.db) p
  step-Throttled s (recover item store now) w p =
      same-IsThrottled s w.db
        (step uniform catalog config min_interval (recover item store now) w).db w.log
        (reset_same_throttle item store now (w.db.item_stores item store) w.db) p
  step-Throttled s (finish run_id status at) w p =
      same-IsThrottled s w.db
        (step uniform catalog config min_interval (finish run_id status at) w).db w.log
        (finished_same_throttle (finish_collection_run w.db.runs run_id status at) w.db) p

  run-Throttled :
      (s : ℕ) (as' : List Action) (w : World)
      → IsThrottled s w.db w.log
      → IsThrottled s
          (run uniform catalog config min_interval as' w).db
          (run uniform catalog config min_interval as' w).log
  unfolding run
  run-Throttled s [] w p = p
  run-Throttled s (a ∷ as') w p =
      run-Throttled s as' (step uniform catalog config min_interval a w) (step-Throttled s a w p)

  -- Claims that do not overlap: over any history of claims, blocks, recoveries and finished runs, each of
  -- which starts on the tables that the one before left, the claims that are granted for one shop, of any
  -- item and of any mission's own source alike, follow one another at no less than the minimum interval.
  run-IsSpaced :
      (s : ℕ) (as' : List Action) (db : Db)
      → IsSpaced min_interval
          (at_store s (run uniform catalog config min_interval as' (fresh db)).log)
  unfolding keep IsSpaced
  run-IsSpaced s as' db =
      (run-Throttled s as' (fresh db) (record { held = tt; spaced = tt })).spaced

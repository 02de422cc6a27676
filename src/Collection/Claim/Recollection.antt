-- ===== src/Collection/Claim/Recollection.antt =====
-- backend/app/collection/shared_claim.py: one item is not collected again at one shop before its cadence.
use mathlib.Core.Path.{subst, sym}
use aishopping_agent.Common.{
  true, [], ◌∷◌, ◌⊎◌, inl, inr, Bool-cases, ℕ, ◌+◌, ◌≤◌, ◌≡◌, ◌∙◌, ap, refl, false, ◌&&◌, ◌==◌,
  List, ◌∷◌, Option, none, some, arith, keep,
}
use aishopping_agent.Common.Time.{minutes}
use Prim.Native.Nat.{min}
use aishopping_agent.Collection.Cadence.{
  StoreActivityState, CadenceConfig, post_init, resolve_collection_cadence, sample_next_run_at,
}
use aishopping_agent.Collection.Cadence.Floor.{resolve_collection_cadence-IsBand}
use aishopping_agent.Collection.Claim.{
  true, register_source, start_mission_run, advance_source, put_item_store, is_future,
  mission_ids_of, advance_store_throttle, start_shared_run, apply_backoff, apply_shared_backoff,
  reset_shared_backoff, advance_monitoring_item_store, register_claim,
}
use aishopping_agent.Collection.Tables.{
  ClaimAttempt, ClaimedCollection, SharedClaim, MonitoringItemStore, Catalog, Db,
}
use aishopping_agent.Collection.Runs.{finish_collection_run, Finished, finished, refused}
use aishopping_agent.Collection.Claim.History.{
  claim_mission, IsSourceGranted, claim_source_cases, finish, may_claim_gives, recover, block,
  IsGranted, claim_cases, claim, Action, World, run, IsSpaced, logged, step, fresh, Claimed,
  IsPaced, IsPaced-cons, due_at, instant, instant_past, finished_runs,
}
use aishopping_agent.Missions.Schedule.{Result, ok, err}

-- The claims of one item at one shop.
abbrev pub of_pair : ℕ → ℕ → List Claimed → List Claimed
of_pair i s log = keep (λ c. c.is_shared && (i == c.scope && s == c.store)) log

put_same_due :
    (i s item store : ℕ) (old new : MonitoringItemStore)
    (table : ℕ → ℕ → Option MonitoringItemStore)
    → table item store ≡ some old
    → new.next_run_at ≡ old.next_run_at
    → due_at (put_item_store item store new table i s) ≡ due_at (table i s)
unfolding put_item_store due_at instant
put_same_due i s item store old new table f h = elim (Bool-cases (i == item && s == store)) [
  | inl e ↦ rw e (ap instant h ∙ sym (ap due_at (same_row (ground arith) (ground arith))))
  | inr e ↦ rw e refl
]
  where
    same_row : i ≡ item → s ≡ store → table i s ≡ some old
    same_row p q = ground arith

backoff_same_due :
    (i s item store at : ℕ) (row : MonitoringItemStore) (r : Result (ℕ × ℕ)) (db : Db)
    → db.item_stores item store ≡ some row
    → due_at ((apply_backoff item store at row r db).item_stores i s) ≡ due_at (db.item_stores i s)
unfolding apply_backoff
backoff_same_due i s item store at row (ok n) db e =
    put_same_due i s item store row _ db.item_stores e refl
backoff_same_due i s item store at row (err x) db e = refl

shared_backoff_same_due :
    (i s item store base at : ℕ) (row : Option MonitoringItemStore) (db : Db)
    → db.item_stores item store ≡ row
    → due_at ((apply_shared_backoff item store base at row db).item_stores i s)
      ≡ due_at (db.item_stores i s)
unfolding apply_shared_backoff
shared_backoff_same_due i s item store base at none db e = refl
shared_backoff_same_due i s item store base at (some row) db e =
    backoff_same_due i s item store at row _ db e

reset_same_due :
    (i s item store at : ℕ) (row : Option MonitoringItemStore) (db : Db)
    → db.item_stores item store ≡ row
    → due_at ((reset_shared_backoff item store at row db).item_stores i s)
      ≡ due_at (db.item_stores i s)
unfolding reset_shared_backoff
reset_same_due i s item store at none db e = refl
reset_same_due i s item store at (some row) db e = ground (
  arith,
  put_same_due i s item store row
      (record row { consecutive_blocks = 0; next_eligible_at = none; updated_at = at })
      db.item_stores e refl,
)

finished_same_due :
    (i s : ℕ) (f : Finished) (db : Db)
    → due_at ((finished_runs f db).item_stores i s) ≡ due_at (db.item_stores i s)
unfolding finished_runs
finished_same_due i s (finished runs) db = refl
finished_same_due i s (refused e) db = refl

-- The shortest time between two collections that a configuration allows.
abbrev pub recollection : CadenceConfig → ℕ
recollection c = minutes (min 30 c.normal_min_minutes)

module _ (uniform : ℕ → ℕ → ℕ) (catalog : Catalog) (config : CadenceConfig) (min_interval : ℕ)
    (drawn : (lo hi : ℕ) → lo ≤ hi → minutes lo ≤ uniform lo hi)
    (valid : post_init config ≡ none) where
  abbrev IsDue : ℕ → ℕ → Db → List Claimed → Type 0
  IsDue i s db log = IsPaced (recollection config) (due_at (db.item_stores i s)) (of_pair i s log)

  sampled_floor :
      (activity : List StoreActivityState) (store item now : ℕ) (missions : List ℕ)
      → now + recollection config
        ≤ sample_next_run_at uniform now
            (resolve_collection_cadence config catalog.market activity store item missions now).0
  unfolding sample_next_run_at minutes
  sampled_floor activity store item now missions =
      let b =
        resolve_collection_cadence-IsBand config catalog.market activity store item missions now
          valid in
      let d = drawn _ _ b.1 in omega (arith, b.0, d)

  register-Due :
      (i s run_id item store : ℕ) (row : MonitoringItemStore) (owner : Option ℕ) (now : ℕ) (db : Db)
      (log : List Claimed)
      → db.item_stores item store ≡ some row
      → is_future row.next_run_at now ≡ false
      → IsDue i s db log
      → IsDue i s
          (register_claim uniform catalog config min_interval run_id item store row owner now db)
          (record { is_shared = true; scope = item; store = store; at = now } ∷ log)
  unfolding register_claim advance_store_throttle advance_monitoring_item_store start_shared_run
      put_item_store keep due_at instant
  register-Due i s run_id item store row owner now db log f h p =
      elim (Bool-cases (i == item && s == store)) [
        | inl e ↦ rw e (
            IsPaced-cons (recollection config) (due_at (db.item_stores i s)) _ _ _
              (same_bound (ground arith) (ground arith))
              (sampled_floor db.activity store item now (mission_ids_of catalog.links item)) p)
        | inr e ↦ rw e p
      ]
    where
      same_bound : i ≡ item → s ≡ store → due_at (db.item_stores i s) ≤ now
      same_bound a b = rw a (rw b (rw f (instant_past row.next_run_at now h)))

  claim_step-Due :
      (i s run_id item store : ℕ) (owner : Option ℕ) (now : ℕ) (w : World)
      (o : Option SharedClaim × Db)
      → (o ≡ (none, w.db))
        ⊎ IsGranted uniform catalog config min_interval run_id item store owner now w.db o
      → IsDue i s w.db w.log
      → IsDue i s
          (logged (record { is_shared = true; scope = item; store = store; at = now }) o w.log).db
          (logged (record { is_shared = true; scope = item; store = store; at = now }) o w.log).log
  unfolding logged
  claim_step-Due i s run_id item store owner now w o (inl e) p = rw e p
  claim_step-Due i s run_id item store owner now w o (inr g) p = rw g.is_left (
      register-Due i s run_id item store g.row owner now w.db w.log g.found
        (may_claim_gives item store g.row now w.db g.may).1 p)

  same-IsDue :
      (i s : ℕ) (before after : Db) (log : List Claimed)
      → due_at (after.item_stores i s) ≡ due_at (before.item_stores i s)
      → IsDue i s before log
      → IsDue i s after log
  same-IsDue i s before after log e p =
      subst (λ t. IsPaced (recollection config) t (of_pair i s log)) (sym e) p

  source_step-Due :
      (i s run_id : ℕ) (a : ClaimAttempt) (now : ℕ) (w : World) (o : Option ClaimedCollection × Db)
      → (o ≡ (none, w.db)) ⊎ IsSourceGranted uniform catalog config min_interval run_id a now w.db o
      → IsDue i s w.db w.log
      → IsDue i s
          (logged
            (record { is_shared = false; scope = a.mission_id; store = a.store_id; at = now })
            o
            w.log).db
          (logged
            (record { is_shared = false; scope = a.mission_id; store = a.store_id; at = now })
            o
            w.log).log
  unfolding logged keep register_source advance_store_throttle advance_source start_mission_run
  source_step-Due i s run_id a now w o (inl e) p = rw e p
  source_step-Due i s run_id a now w o (inr g) p = rw g.is_left p

  step-Due :
      (i s : ℕ) (a : Action) (w : World)
      → IsDue i s w.db w.log
      → IsDue i s
          (step uniform catalog config min_interval a w).db
          (step uniform catalog config min_interval a w).log
  unfolding step
  step-Due i s (claim run_id item store owner now) w p =
      claim_step-Due i s run_id item store owner now w _
        (claim_cases uniform catalog config min_interval run_id item store owner now w.db) p
  step-Due i s (claim_mission run_id a now) w p =
      source_step-Due i s run_id a now w _
        (claim_source_cases uniform catalog config min_interval run_id a now w.db) p
  step-Due i s (block item store base at) w p =
      same-IsDue i s w.db (step uniform catalog config min_interval (block item store base at) w).db
        w.log (shared_backoff_same_due i s item store base at _ w.db refl) p
  step-Due i s (recover item store now) w p =
      same-IsDue i s w.db (step uniform catalog config min_interval (recover item store now) w).db
        w.log (reset_same_due i s item store now _ w.db refl) p
  step-Due i s (finish run_id status at) w p =
      same-IsDue i s w.db (step uniform catalog config min_interval (finish run_id status at) w).db
        w.log (finished_same_due i s (finish_collection_run w.db.runs run_id status at) w.db) p

  run-Due :
      (i s : ℕ) (as' : List Action) (w : World)
      → IsDue i s w.db w.log
      → IsDue i s
          (run uniform catalog config min_interval as' w).db
          (run uniform catalog config min_interval as' w).log
  unfolding run
  run-Due i s [] w p = p
  run-Due i s (a ∷ as') w p =
      run-Due i s as' (step uniform catalog config min_interval a w) (step-Due i s a w p)

  -- Under a configuration that its checks accept, and from any tables on and over any history of claims,
  -- blocks, recoveries and finished runs, the claims that are granted for one item at one shop follow one
  -- another at no less than half an hour, or than the shortest normal interval where that is less. A
  -- draw is taken to be no less than the lower end of its band.
  pub run-recollection :
      (i s : ℕ) (as' : List Action) (db : Db)
      → IsSpaced
          (recollection config)
          (of_pair i s (run uniform catalog config min_interval as' (fresh db)).log)
  unfolding keep IsSpaced
  run-recollection i s as' db =
      (run-Due i s as' (fresh db) (record { held = tt; spaced = tt })).spaced

-- ===== src/Collection/Claim/History.antt =====
-- backend/app/collection/shared_claim.py and orchestration.py: histories of claims, blocks,
-- recoveries and finished runs, and the claims they grant.
use aishopping_agent.Common.{
  Bool, inl, inr, Bool-cases, ◌⊎◌, ℕ, ◌+◌, ◌≤◌, ◌≡◌, refl, true, false, not, ◌||◌, List, [], ◌∷◌,
  Option, none, some, arith, All,
}
use aishopping_agent.Common.Texts.{text_in}
use aishopping_agent.Collection.Cadence.{CadenceConfig}
use aishopping_agent.Collection.Claim.{
  Bool, may_claim_source, register_source, source_locked, claim_source, v1_source_codes, is_future,
  is_throttled, apply_shared_backoff, reset_shared_backoff, register_claim, may_claim, claim_locked,
  claim_found, claim_shared_collection,
}
use aishopping_agent.Collection.Tables.{
  ClaimAttempt, ClaimedCollection, MissionSource, MonitoringItem, Store, MonitoringItemStore,
  StoreThrottleState, SharedClaim, Catalog, Db,
}
use aishopping_agent.Collection.Runs.{
  CollectionRunStatus, Finished, finished, refused, finish_collection_run,
}

-- A claim that was granted: of an item, or of a mission's own source.
pub record Claimed : Type 0 where
  pub is_shared : Bool
  pub scope : ℕ
  pub store : ℕ
  pub at : ℕ

-- Of the claims, the latest first, every one comes at least `gap` after each before it.
unfoldable pub IsSpaced : ℕ → List Claimed → Type 0
IsSpaced gap [] = Unit
IsSpaced gap (c ∷ cs) = All (λ o. o.at + gap ≤ c.at) cs × IsSpaced gap cs

-- And the next one is held back until `bound`.
pub record IsPaced (gap bound : ℕ) (cs : List Claimed) : Type 0 where
  pub held : All (λ o. o.at + gap ≤ bound) cs
  pub spaced : IsSpaced gap cs

pub All-raise :
    (gap a b : ℕ) (cs : List Claimed)
    → a ≤ b
    → All (λ o. o.at + gap ≤ a) cs
    → All (λ o. o.at + gap ≤ b) cs
All-raise gap a b [] l h = tt
All-raise gap a b (c ∷ cs) l h = (omega arith, All-raise gap a b cs l h.1)

pub IsPaced-cons :
    (gap bound next : ℕ) (c : Claimed) (cs : List Claimed)
    → bound ≤ c.at
    → c.at + gap ≤ next
    → IsPaced gap bound cs
    → IsPaced gap next (c ∷ cs)
unfolding IsSpaced
IsPaced-cons gap bound next c cs l n p = record {
  held = (n, All-raise gap bound next cs (omega arith) p.held);
  spaced = (All-raise gap bound c.at cs l p.held, p.spaced);
}

unfoldable pub instant : Option ℕ → ℕ
instant none = 0
instant (some t) = t

unfoldable pub allowed_at : Option StoreThrottleState → ℕ
unfolding instant
allowed_at none = 0
allowed_at (some t) = instant t.next_allowed_at

unfoldable pub due_at : Option MonitoringItemStore → ℕ
unfolding instant
due_at none = 0
due_at (some r) = instant r.next_run_at

pub instant_past : (o : Option ℕ) (now : ℕ) → is_future o now ≡ false → instant o ≤ now
unfolding is_future instant
instant_past none now h = omega arith
instant_past (some t) now h = ground arith

pub allowed_past :
    (o : Option StoreThrottleState) (now : ℕ) → is_throttled o now ≡ false → allowed_at o ≤ now
unfolding is_throttled allowed_at
allowed_past none now h = omega arith
allowed_past (some t) now h = instant_past t.next_allowed_at now h

-- One transaction of a history, which starts when the one before has ended.
pub data Action : Type 0 where
  claim : (run_id item store : ℕ) → Option ℕ → (now : ℕ) → Action
  claim_mission : (run_id : ℕ) → ClaimAttempt → (now : ℕ) → Action
  block : (item store base failed_at : ℕ) → Action
  recover : (item store now : ℕ) → Action
  finish : ℕ → CollectionRunStatus → ℕ → Action

-- The tables, and the claims that were granted, the latest first.
pub record World : Type 0 where
  pub db : Db
  pub log : List Claimed

unfoldable pub logged : {A : Type 0} → Claimed → Option A × Db → List Claimed → World
logged c (none, db) log = record { db = db; log = log }
logged c (some granted, db) log = record { db = db; log = c ∷ log }

unfoldable pub finished_runs : Finished → Db → Db
finished_runs (finished runs) db = record db { runs = runs }
finished_runs (refused e) db = db

pub may_claim_gives :
    (item store : ℕ) (row : MonitoringItemStore) (now : ℕ) (db : Db)
    → may_claim item store row now db ≡ true
    → (is_throttled (db.throttle store) now ≡ false)
      × (is_future row.next_run_at now ≡ false)
      × (is_future row.next_eligible_at now ≡ false)
unfolding may_claim
may_claim_gives item store row now db h = ground arith

pub may_claim_source_gives :
    (mission store : ℕ) (row : MissionSource) (now : ℕ) (db : Db)
    → may_claim_source mission store row now db ≡ true
    → is_throttled (db.throttle store) now ≡ false
unfolding may_claim_source
may_claim_source_gives mission store row now db h = ground arith

-- Before anything is claimed.
abbrev pub fresh : Db → World
fresh db = record { db = db; log = [] }

module _ (uniform : ℕ → ℕ → ℕ) (catalog : Catalog) (config : CadenceConfig) (min_interval : ℕ) where
  unfoldable pub step : Action → World → World
  unfolding logged finished_runs
  step (claim run_id item store owner now) w =
      logged (record { is_shared = true; scope = item; store = store; at = now })
        (claim_shared_collection uniform catalog config min_interval run_id item store owner now
          w.db)
        w.log
  step (claim_mission run_id a now) w =
      logged (record { is_shared = false; scope = a.mission_id; store = a.store_id; at = now })
        (claim_source uniform catalog config min_interval run_id a now w.db) w.log
  step (block item store base failed_at) w = record w {
    db = apply_shared_backoff item store base failed_at (w.db.item_stores item store) w.db;
  }
  step (recover item store now) w = record w {
    db = reset_shared_backoff item store now (w.db.item_stores item store) w.db;
  }
  step (finish run_id status at) w = record w {
    db = finished_runs (finish_collection_run w.db.runs run_id status at) w.db;
  }

  unfoldable pub run : List Action → World → World
  unfolding step
  run [] w = w
  run (a ∷ as') w = run as' (step a w)

  -- What a claim that is granted has found.
  pub record IsGranted (run_id item store : ℕ) (owner : Option ℕ) (now : ℕ) (db : Db)
      (o : Option SharedClaim × Db) : Type 0 where
    pub row : MonitoringItemStore
    pub granted : SharedClaim
    pub same_store : granted.store_id ≡ store
    pub found : db.item_stores item store ≡ some row
    pub may : may_claim item store row now db ≡ true
    pub is_left : o ≡ (
      some granted,
      register_claim uniform catalog config min_interval run_id item store row owner now db,
    )

  locked_cases :
      (run_id : ℕ) (i : MonitoringItem) (s : Store) (item store : ℕ)
      (r : Option MonitoringItemStore) (owner : Option ℕ) (now : ℕ) (db : Db)
      → db.item_stores item store ≡ r
      → (claim_locked uniform catalog config min_interval run_id i s item store r owner now db
          ≡ (none, db))
        ⊎ IsGranted run_id item store owner now db
            (claim_locked uniform catalog config min_interval run_id i s item store r owner now db)
  unfolding claim_locked
  locked_cases run_id i s item store none owner now db e = inl refl
  locked_cases run_id i s item store (some row) owner now db e =
      elim (Bool-cases (may_claim item store row now db)) [
        | inl m ↦ inr (record {
          row = row;
          granted = record {
            run_id = run_id;
            canonical_identity = i.canonical_identity;
            store_code = s.code;
            monitoring_item_id = item;
            store_id = store;
          };
          same_store = refl;
          found = e;
          may = m;
          is_left = rw m refl;
        })
        | inr m ↦ inl (rw m refl)
      ]

  found_cases :
      (run_id : ℕ) (i : Option MonitoringItem) (s : Option Store) (item store : ℕ)
      (owner : Option ℕ) (now : ℕ) (db : Db)
      → (claim_found uniform catalog config min_interval run_id i s item store owner now db
          ≡ (none, db))
        ⊎ IsGranted run_id item store owner now db
            (claim_found uniform catalog config min_interval run_id i s item store owner now db)
  unfolding claim_found
  found_cases run_id none s item store owner now db = inl refl
  found_cases run_id (some i) none item store owner now db = inl refl
  found_cases run_id (some i) (some s) item store owner now db =
      elim (Bool-cases (not s.is_active || not (text_in s.code v1_source_codes))) [
        | inl e ↦ inl (rw e refl)
        | inr e ↦
            rw e (locked_cases run_id i s item store (db.item_stores item store) owner now db refl)
      ]

  pub claim_cases :
      (run_id item store : ℕ) (owner : Option ℕ) (now : ℕ) (db : Db)
      → (claim_shared_collection uniform catalog config min_interval run_id item store owner now db
          ≡ (none, db))
        ⊎ IsGranted run_id item store owner now db (
            claim_shared_collection uniform catalog config min_interval run_id item store owner now
              db)
  unfolding claim_shared_collection
  claim_cases run_id item store owner now db =
      found_cases run_id (catalog.items item) (catalog.stores store) item store owner now db

  pub record IsSourceGranted (run_id : ℕ) (a : ClaimAttempt) (now : ℕ) (db : Db)
      (o : Option ClaimedCollection × Db) : Type 0 where
    pub row : MissionSource
    pub granted : ClaimedCollection
    pub same_store : granted.attempt.store_id ≡ a.store_id
    pub may : may_claim_source a.mission_id a.store_id row now db ≡ true
    pub is_left : o ≡ (
      some granted,
      register_source uniform catalog config min_interval run_id a.mission_id a.store_id row now db,
    )

  source_locked_cases :
      (run_id : ℕ) (a : ClaimAttempt) (r : Option MissionSource) (now : ℕ) (db : Db)
      → (source_locked uniform catalog config min_interval run_id a r now db ≡ (none, db))
        ⊎ IsSourceGranted run_id a now db
            (source_locked uniform catalog config min_interval run_id a r now db)
  unfolding source_locked
  source_locked_cases run_id a none now db = inl refl
  source_locked_cases run_id a (some row) now db =
      elim (Bool-cases (may_claim_source a.mission_id a.store_id row now db)) [
        | inl m ↦ inr (record {
          row = row;
          granted = record { run_id = run_id; attempt = a; claimed_at = now };
          same_store = refl;
          may = m;
          is_left = rw m refl;
        })
        | inr m ↦ inl (rw m refl)
      ]

  pub claim_source_cases :
      (run_id : ℕ) (a : ClaimAttempt) (now : ℕ) (db : Db)
      → (claim_source uniform catalog config min_interval run_id a now db ≡ (none, db))
        ⊎ IsSourceGranted run_id a now db
            (claim_source uniform catalog config min_interval run_id a now db)
  unfolding claim_source
  claim_source_cases run_id a now db =
      source_locked_cases run_id a (db.sources a.mission_id a.store_id) now db

-- ===== src/Collection/Claim/Overlap.antt =====
-- backend/app/collection/shared_claim.py: two claims at one shop that overlap. A claim locks the
-- row of its item at the shop, and reads the row of the shop's throttle without a lock.
use aishopping_agent.Collection.Claim.Spacing.{register_throttle}
use aishopping_agent.Common.{
  true, false, ◌+◌, ◌<◌, ap, not, ◌||◌, ℕ, ◌≡◌, ◌≢◌, ◌⊎◌, inl, inr, refl, ◌∙◌, Option, none, some,
  arith, any_of, Bool-cases,
}
use aishopping_agent.Common.Texts.{text_in}
use aishopping_agent.Collection.Cadence.{CadenceConfig}
use aishopping_agent.Collection.Runs.{has_running, is_key}
use aishopping_agent.Collection.Claim.{
  true, is_future, false, is_throttled, put_throttle, v1_source_codes, may_claim, claim_locked,
  claim_found, claim_shared_collection, advance_store_throttle, register_claim, start_shared_run,
  advance_monitoring_item_store, put_item_store,
}
use aishopping_agent.Collection.Tables.{
  MonitoringItem, Store, MonitoringItemStore, StoreThrottleState, SharedClaim, Catalog, Db,
}
use aishopping_agent.Collection.Claim.History.{IsGranted, claim_cases, may_claim_gives}

module _ (uniform : ℕ → ℕ → ℕ) (catalog : Catalog) (config : CadenceConfig) (min_interval : ℕ) where
  -- The claim's outcome, with its upsert of the throttle made on the table as it is by then.
  unfoldable pub upserted : ℕ → ℕ → Db → Option SharedClaim × Db → Option SharedClaim × Db
  unfolding advance_store_throttle
  upserted store now db (none, after) = (none, db)
  upserted store now db (some c, after) = (
    some c,
    advance_store_throttle store now min_interval (record after { throttle = db.throttle }),
  )

  -- A claim that read the throttle when the table was `seen`, and writes when the tables are `db`.
  unfoldable pub claim_having_seen :
      (ℕ → Option StoreThrottleState) → ℕ → ℕ → ℕ → Option ℕ → ℕ → Db → Option SharedClaim × Db
  unfolding claim_shared_collection upserted
  claim_having_seen seen run_id item store owner now db = upserted store now db (
      claim_shared_collection uniform catalog config min_interval run_id item store owner now
        (record db { throttle = seen }))

  abbrev claim_on : ℕ → ℕ → ℕ → Option ℕ → ℕ → Db → Option SharedClaim × Db
  claim_on run_id item store owner now db =
      claim_shared_collection uniform catalog config min_interval run_id item store owner now db

  locked_agrees :
      (run_id : ℕ) (i : MonitoringItem) (s : Store) (item store : ℕ)
      (row : Option MonitoringItemStore) (owner : Option ℕ) (now : ℕ) (db other : Db)
      → ((r : MonitoringItemStore)
          → may_claim item store r now other ≡ may_claim item store r now db)
      → (claim_locked uniform catalog config min_interval run_id i s item store row owner now
          other).0
        ≡ (claim_locked uniform catalog config min_interval run_id i s item store row owner now
            db).0
  unfolding claim_locked
  locked_agrees run_id i s item store none owner now db other h = refl
  locked_agrees run_id i s item store (some row) owner now db other h =
      let same = h row in
      elim (Bool-cases (may_claim item store row now db)) [
        | inl e ↦ rw same (rw e refl)
        | inr e ↦ rw same (rw e refl)
      ]

  found_agrees :
      (run_id : ℕ) (i : Option MonitoringItem) (s : Option Store) (item store : ℕ)
      (owner : Option ℕ) (now : ℕ) (db other : Db)
      → other.item_stores item store ≡ db.item_stores item store
      → ((r : MonitoringItemStore)
          → may_claim item store r now other ≡ may_claim item store r now db)
      → (claim_found uniform catalog config min_interval run_id i s item store owner now other).0
        ≡ (claim_found uniform catalog config min_interval run_id i s item store owner now db).0
  unfolding claim_found
  found_agrees run_id none none item store owner now db other e h = refl
  found_agrees run_id none (some s) item store owner now db other e h = refl
  found_agrees run_id (some i) none item store owner now db other e h = refl
  found_agrees run_id (some i) (some s) item store owner now db other e h =
      elim (Bool-cases (not s.is_active || not (text_in s.code v1_source_codes))) [
        | inl t ↦ rw t refl
        | inr f ↦ rw f (
            rw e (
              locked_agrees run_id i s item store (db.item_stores item store) owner now db other h))
      ]

  -- What the claim of one item leaves of what the claim of another reads, but for the throttle.
  registered_row :
      (run_id item store : ℕ) (row : MonitoringItemStore) (owner : Option ℕ) (now other : ℕ)
      (db : Db)
      → other ≢ item
      → (register_claim uniform catalog config min_interval run_id item store row owner now
            db).item_stores
          other store
        ≡ db.item_stores other store
  unfolding register_claim advance_store_throttle advance_monitoring_item_store start_shared_run
      put_item_store
  registered_row run_id item store row owner now other db n = ground arith

  registered_may :
      (run_id item store : ℕ) (row : MonitoringItemStore) (owner : Option ℕ) (now other later : ℕ)
      (db : Db) (r : MonitoringItemStore)
      → other ≢ item
      → may_claim other store r later
          (record (register_claim uniform catalog config min_interval run_id item store row owner
            now db) { throttle = db.throttle })
        ≡ may_claim other store r later db
  unfolding may_claim register_claim advance_store_throttle advance_monitoring_item_store
      start_shared_run has_running any_of is_key
  registered_may run_id item store row owner now other later db r n = ground arith

  after_registered :
      (first_run second_run first second store : ℕ) (row : MonitoringItemStore)
      (first_owner second_owner : Option ℕ) (now later : ℕ) (db : Db) (b : SharedClaim)
      → second ≢ first
      → (claim_on second_run second store second_owner later db).0 ≡ some b
      → (claim_on second_run second store second_owner later
          (record (register_claim uniform catalog config min_interval first_run first store row
            first_owner now db) { throttle = db.throttle })).0
        ≡ some b
  unfolding claim_shared_collection
  after_registered first_run second_run first second store row first_owner second_owner now later db
        b n k =
      found_agrees second_run (catalog.items second) (catalog.stores store) second store
        second_owner later db _
        (registered_row first_run first store row first_owner now second db n)
        (λ r. registered_may first_run first store row first_owner now second later db r n)
      ∙ k

  upserted-none :
      (store now : ℕ) (db : Db) (o : Option SharedClaim × Db)
      → o.0 ≡ none
      → (upserted store now db o).0 ≡ none
  unfolding upserted
  upserted-none store now db (none, after) h = refl
  upserted-none store now db (some x, after) h = h

  upserted_claim :
      (store now : ℕ) (db : Db) (o : Option SharedClaim × Db) (c : SharedClaim)
      → o.0 ≡ some c
      → (upserted store now db o).0 ≡ some c
  unfolding upserted
  upserted_claim store now db (none, after) c h = cc
  upserted_claim store now db (some x, after) c h = h

  overlapping_granted :
      (first_run second_run first second store : ℕ) (first_owner second_owner : Option ℕ)
      (now later : ℕ) (db : Db) (a b : SharedClaim)
      → second ≢ first
      → (claim_shared_collection uniform catalog config min_interval first_run first store
          first_owner now db).0
        ≡ some a
      → (claim_shared_collection uniform catalog config min_interval second_run second store
          second_owner later db).0
        ≡ some b
      → (claim_having_seen db.throttle second_run second store second_owner later
          (claim_shared_collection uniform catalog config min_interval first_run first store
            first_owner now db).1).0
        ≡ some b
  unfolding claim_having_seen
  overlapping_granted first_run second_run first second store first_owner second_owner now later db
        a b n h k =
      upserted_claim store later (claim_on first_run first store first_owner now db).1 _ b (
        on_first (
          claim_cases uniform catalog config min_interval first_run first store first_owner now db))
    where
      on_first :
          ((claim_on first_run first store first_owner now db) ≡ (none, db))
            ⊎ IsGranted uniform catalog config min_interval first_run first store first_owner now db
                (claim_on first_run first store first_owner now db)
          → (claim_on second_run second store second_owner later
              (record (claim_on first_run first store first_owner now db).1 {
                throttle = db.throttle;
              })).0
            ≡ some b
      on_first (inl e) = cc
      on_first (inr g) = rw g.is_left (
          after_registered first_run second_run first second store g.row first_owner second_owner
            now later db b n k)

  throttled_soon :
      (store now later : ℕ) (table : ℕ → Option StoreThrottleState)
      → later < now + min_interval
      → is_throttled
          (put_throttle store
            (record { next_allowed_at = some (now + min_interval); updated_at = now })
            table
            store)
          later
        ≡ true
  unfolding put_throttle is_throttled is_future
  throttled_soon store now later table h = ground arith

  -- After a claim that was granted, another at the shop is refused within the interval.
  later_refused :
      (first_run second_run first second store : ℕ) (first_owner second_owner : Option ℕ)
      (now later : ℕ) (db : Db) (a : SharedClaim)
      → (claim_on first_run first store first_owner now db).0 ≡ some a
      → later < now + min_interval
      → (claim_on second_run second store second_owner later
          (claim_on first_run first store first_owner now db).1).0
        ≡ none
  later_refused first_run second_run first second store first_owner second_owner now later db a h
        l =
      elim (claim_cases uniform catalog config min_interval first_run first store first_owner now
        db) [
          | inl e ↦ absurd (let q = ap (λ o. o.0) e in cc)
          | inr g ↦ rw g.is_left (on_second g.row)
        ]
    where
      on_second :
          (row : MonitoringItemStore)
          → (claim_on second_run second store second_owner later (
              register_claim uniform catalog config min_interval first_run first store row
                first_owner now db)).0
            ≡ none
      on_second row =
          let tables =
            register_claim uniform catalog config min_interval first_run first store row first_owner
              now db in
          elim (claim_cases uniform catalog config min_interval second_run second store second_owner
            later tables) [
              | inl e ↦ ap (λ o. o.0) e
              | inr g ↦ absurd (
                  let free : is_throttled (tables.throttle store) later ≡ false =
                    (may_claim_gives second store g.row later tables g.may).0 in
                  let held : is_throttled (tables.throttle store) later ≡ true =
                    rw
                      (register_throttle uniform catalog config min_interval first_run first store
                        row first_owner now db)
                      (throttled_soon store now later db.throttle l) in
                  cc)
            ]

  -- Where one item's claim at a shop is granted, and another item's claim at the same shop, of whatever
  -- instant, would be granted on the same tables: after the first, the other is granted as well if
  -- it read the throttle before the first wrote it, and refused within the minimum interval of the
  -- first if it reads the throttle that the first left. So the throttle does not keep claims that
  -- overlap apart.
  pub overlapping_claims_granted :
      (first_run second_run first second store : ℕ) (first_owner second_owner : Option ℕ)
      (now later : ℕ) (db : Db) (a b : SharedClaim)
      → second ≢ first
      → (claim_shared_collection uniform catalog config min_interval first_run first store
          first_owner now db).0
        ≡ some a
      → (claim_shared_collection uniform catalog config min_interval second_run second store
          second_owner later db).0
        ≡ some b
      → let after =
          (claim_shared_collection uniform catalog config min_interval first_run first store
            first_owner now db).1 in
        ((claim_having_seen db.throttle second_run second store second_owner later after).0
          ≡ some b)
        × (later < now + min_interval
            → (claim_having_seen after.throttle second_run second store second_owner later after).0
              ≡ none)
  unfolding claim_having_seen upserted
  overlapping_claims_granted first_run second_run first second store first_owner second_owner now
        later db a b n h k =
      (
        overlapping_granted first_run second_run first second store first_owner second_owner now
            later db a b n h k,
        λ l. upserted-none store later _ _ (
            later_refused first_run second_run first second store first_owner second_owner now later
              db a h l),
      )

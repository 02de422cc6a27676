-- ===== src/Collection/Batch.antt =====
-- backend/app/collection/orchestration.py: `claim_due_work`, the batch of claims of one pass, from
-- the attempts that the selection found, each with the criteria of its mission. Owners are reserved
-- first, attempts are made in one order over all shops, and only who was granted a claim is charged
-- with a turn. The display aggregate of a mission's schedule is not kept. A shop's, a mission's or
-- an item's identifier stands for its text. `is_space` is `str.isspace`.
pub mod Shops
pub mod Turns
pub mod Granted
pub mod Charges
mod Tests
use aishopping_agent.Common.{
  ℕ, List, [], ◌∷◌, ◌++◌, Option, none, some, Bool, true, false, not, ◌&&◌, ◌||◌, ◌==◌, ltb, leb,
  if◌then◌else◌, keep, sort_by, any_of,
}
use aishopping_agent.Purchase.Comparison.{leb_text}
use aishopping_agent.Collection.Cadence.{CadenceConfig, is_in}
use aishopping_agent.Collection.Claim.{claim_shared_collection, claim_source}
use aishopping_agent.Collection.Tables.{SharedClaim, ClaimAttempt, ClaimedCollection, Catalog, Db}
use aishopping_agent.Collection.Fairness.{
  QueueTable, reserve_fairness_owners, commit_fairness_turn_for_owner,
}

pub data Target : Type 0 where
  legacy_store : ClaimAttempt → Target
  shared : (monitoring_item_id store_id : ℕ) → Target

-- The identifier of the run that the attempt starts is drawn beforehand.
pub record Attempt : Type 0 where
  pub owner_user_id : ℕ
  pub due_at : ℕ
  pub resource_id : List ℕ
  pub run_id : ℕ
  pub target : Target

unfoldable pub store_of : Target → ℕ
store_of (legacy_store a) = a.store_id
store_of (shared item store) = store

-- `"legacy_store"` is before `"shared"`.
kind_rank : Target → ℕ
kind_rank (legacy_store a) = 0
kind_rank (shared item store) = 1

-- `(str(store_id), due_at, kind, resource_id)`
unfoldable pub attempt_order : Attempt → Attempt → Bool
unfolding store_of kind_rank
attempt_order a b =
    ltb (store_of a.target) (store_of b.target)
    || (store_of a.target == store_of b.target
        && (ltb a.due_at b.due_at
            || (a.due_at == b.due_at
                && (ltb (kind_rank a.target) (kind_rank b.target)
                    || (kind_rank a.target == kind_rank b.target
                        && leb_text a.resource_id b.resource_id)))))

-- A mission without words to search for is passed over.
has_query : (ℕ → Bool) → Target → Bool
has_query is_space (legacy_store a) = any_of (λ c. not (is_space c)) a.search_query
has_query is_space (shared item store) = true

unfoldable pub build_claim_attempts : (ℕ → Bool) → List Attempt → List ℕ → List Attempt
unfolding attempt_order has_query is_in
build_claim_attempts is_space selected reserved =
    sort_by attempt_order
      (keep (λ a. is_in a.owner_user_id reserved && has_query is_space a.target) selected)

pub record Batch : Type 0 where
  pub db : Db
  pub old_path : List ClaimedCollection
  pub shared_path : List SharedClaim
  pub claimed_owners : List ℕ

pub record Claimed : Type 0 where
  pub batch : Batch
  pub queue : QueueTable

-- `set.add`
unfoldable pub add_owner : ℕ → List ℕ → List ℕ
unfolding is_in
add_owner u us = if is_in u us then us else u ∷ us

unfoldable pub on_legacy_claim : ℕ → Batch → Option ClaimedCollection × Db → Batch
unfolding add_owner
on_legacy_claim owner b (none, db) = record b { db = db }
on_legacy_claim owner b (some c, db) = record b {
  db = db;
  old_path = b.old_path ++ (c ∷ []);
  claimed_owners = add_owner owner b.claimed_owners;
}

unfoldable pub on_shared_claim : ℕ → Batch → Option SharedClaim × Db → Batch
unfolding add_owner
on_shared_claim owner b (none, db) = record b { db = db }
on_shared_claim owner b (some c, db) = record b {
  db = db;
  shared_path = b.shared_path ++ (c ∷ []);
  claimed_owners = add_owner owner b.claimed_owners;
}

module _ (uniform : ℕ → ℕ → ℕ) (catalog : Catalog) (config : CadenceConfig) (min_interval : ℕ)
    (now : ℕ) where
  unfoldable pub claim_target : Attempt → Target → Batch → Batch
  unfolding on_legacy_claim on_shared_claim
  claim_target a (legacy_store c) b =
      on_legacy_claim a.owner_user_id b
        (claim_source uniform catalog config min_interval a.run_id c now b.db)
  claim_target a (shared item store) b = on_shared_claim a.owner_user_id b (
      claim_shared_collection uniform catalog config min_interval a.run_id item store
        (some a.owner_user_id) now b.db)

  unfoldable pub claim_attempts : List Attempt → Batch → Batch
  unfolding claim_target
  claim_attempts [] b = b
  claim_attempts (a ∷ as') b = claim_attempts as' (claim_target a a.target b)

unfoldable pub commit_turns : (ℕ → ℕ → ℕ) → ℕ → ℕ → ℕ → ℕ → List ℕ → QueueTable → QueueTable
commit_turns cooldown now turn_id lo hi [] queue = queue
commit_turns cooldown now turn_id lo hi (u ∷ us) queue =
    commit_turns cooldown now turn_id lo hi us
      (commit_fairness_turn_for_owner cooldown u now turn_id lo hi queue)

abbrev pub empty_batch : Db → Batch
empty_batch db = record { db = db; old_path = []; shared_path = []; claimed_owners = [] }

module _ (uniform cooldown : ℕ → ℕ → ℕ) (is_space : ℕ → Bool) (is_locked : ℕ → Bool)
    (catalog : Catalog) (config : CadenceConfig) (min_interval lo hi : ℕ) where
  unfoldable pub claim_reserved : List ℕ → QueueTable → List Attempt → ℕ → ℕ → Db → Claimed
  unfolding claim_attempts commit_turns build_claim_attempts
  claim_reserved [] queue selected now turn_id db = record { batch = empty_batch db; queue = queue }
  claim_reserved (u ∷ us) queue selected now turn_id db =
      let batch =
        claim_attempts uniform catalog config min_interval now
          (build_claim_attempts is_space selected (u ∷ us)) (empty_batch db) in
      record {
        batch = batch;
        queue = commit_turns cooldown now turn_id lo hi batch.claimed_owners queue;
      }

  unfoldable pub claim_due_work : List ℕ → List Attempt → ℕ → ℕ → Db → QueueTable → Claimed
  unfolding claim_reserved
  claim_due_work owner_ids selected now turn_id db queue =
      let reserved = reserve_fairness_owners is_locked owner_ids now queue in
      claim_reserved reserved.0 reserved.1 selected now turn_id db

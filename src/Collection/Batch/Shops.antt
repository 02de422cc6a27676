-- ===== src/Collection/Batch/Shops.antt =====
-- backend/app/collection/orchestration.py: in one batch a shop is claimed once at most, over both paths.
use mathlib.Core.Path.{subst, sym}
use aishopping_agent.Common.{
  inl, inr, Bool-cases, ◌⊎◌, ℕ, ◌+◌, ◌≤◌, ◌<◌, ◌≡◌, refl, Bool, true, false, ◌==◌, List, [], ◌∷◌,
  ◌++◌, Option, none, some, arith, count_of,
}
use aishopping_agent.Collection.Cadence.{CadenceConfig}
use aishopping_agent.Collection.Claim.{put_throttle, is_throttled}
use aishopping_agent.Collection.Tables.{
  SharedClaim, ClaimAttempt, ClaimedCollection, StoreThrottleState, Catalog, Db,
}
use aishopping_agent.Collection.Claim.History.{
  allowed_at, instant, allowed_past, IsGranted, IsSourceGranted, claim_cases, claim_source_cases,
  may_claim_gives, may_claim_source_gives,
}
use aishopping_agent.Collection.Claim.Spacing.{register_throttle, register_source_throttle}
use aishopping_agent.Collection.Fairness.{QueueTable, reserve_fairness_owners}
use aishopping_agent.Collection.Batch.{
  Target, legacy_store, shared, Attempt, Batch, on_legacy_claim, on_shared_claim, claim_target,
  claim_attempts, empty_batch, claim_reserved, claim_due_work, build_claim_attempts,
}

-- The claims of the batch at one shop.
pub claims_at : ℕ → Batch → ℕ
claims_at s b =
    count_of (λ c. s == c.attempt.store_id) b.old_path
    + count_of (λ c. s == c.store_id) b.shared_path

bit : Bool → ℕ
bit true = 1
bit false = 0

count_snoc :
    {A : Type 0}
    → (p : A → Bool) (xs : List A) (x : A) → count_of p (xs ++ (x ∷ [])) ≡ count_of p xs + bit (p x)
unfolding count_of bit
count_snoc p [] x = ground arith
count_snoc p (y ∷ xs) x = ground (arith, count_snoc p xs x)

-- A shop with a claim in the batch is closed for the rest of it.
abbrev IsOnce : ℕ → ℕ → Option StoreThrottleState → Type 0
IsOnce now n throttle = (n ≤ 1) × ((n ≡ 0) ⊎ (now < allowed_at throttle))

granted-Once :
    (now min_interval s store n : ℕ) (throttle : ℕ → Option StoreThrottleState)
    → 1 ≤ min_interval
    → is_throttled (throttle store) now ≡ false
    → IsOnce now n (throttle s)
    → IsOnce now (n + bit (s == store)) (
        put_throttle store
          (record { next_allowed_at = some (now + min_interval); updated_at = now })
          throttle
          s)
unfolding put_throttle allowed_at instant bit
granted-Once now min_interval s store n throttle l t h = elim (Bool-cases (s == store)) [
  | inl e ↦
      let past =
        subst (λ x. allowed_at (throttle x) ≤ now) (sym (same e))
          (allowed_past (throttle store) now t) in
      rw e (ground arith)
  | inr e ↦ rw e (ground arith)
]
  where
    same : (s == store) ≡ true → s ≡ store
    same e = ground arith

legacy_claims_at :
    (s owner : ℕ) (b : Batch) (c : ClaimedCollection) (db : Db)
    → claims_at s (on_legacy_claim owner b (some c, db))
      ≡ claims_at s b + bit (s == c.attempt.store_id)
unfolding claims_at on_legacy_claim
legacy_claims_at s owner b c db =
    let h = count_snoc (λ x. s == x.attempt.store_id) b.old_path c in omega (arith, h)

shared_claims_at :
    (s owner : ℕ) (b : Batch) (c : SharedClaim) (db : Db)
    → claims_at s (on_shared_claim owner b (some c, db)) ≡ claims_at s b + bit (s == c.store_id)
unfolding claims_at on_shared_claim
shared_claims_at s owner b c db =
    let h = count_snoc (λ x. s == x.store_id) b.shared_path c in omega (arith, h)

module _ (uniform : ℕ → ℕ → ℕ) (catalog : Catalog) (config : CadenceConfig) (min_interval now : ℕ)
    (positive : 1 ≤ min_interval) where
  abbrev IsShopOnce : ℕ → Batch → Type 0
  IsShopOnce s b = IsOnce now (claims_at s b) (b.db.throttle s)

  legacy-Once :
      (s owner run_id : ℕ) (a : ClaimAttempt) (b : Batch) (o : Option ClaimedCollection × Db)
      → (o ≡ (none, b.db)) ⊎ IsSourceGranted uniform catalog config min_interval run_id a now b.db o
      → IsShopOnce s b
      → IsShopOnce s (on_legacy_claim owner b o)
  unfolding on_legacy_claim put_throttle
  legacy-Once s owner run_id a b o (inl e) h = rw e (unfold on_legacy_claim claims_at in h)
  legacy-Once s owner run_id a b o (inr g) h = rw g.is_left (
      rw (legacy_claims_at s owner b g.granted _) (
        rw g.same_store (
          rw
            (register_source_throttle uniform catalog config min_interval run_id a.mission_id
              a.store_id g.row now b.db)
            (granted-Once now min_interval s a.store_id (claims_at s b) b.db.throttle positive
              (may_claim_source_gives a.mission_id a.store_id g.row now b.db g.may) h))))

  shared-Once :
      (s owner run_id item store : ℕ) (b : Batch) (o : Option SharedClaim × Db)
      → (o ≡ (none, b.db))
        ⊎ IsGranted uniform catalog config min_interval run_id item store (some owner) now b.db o
      → IsShopOnce s b
      → IsShopOnce s (on_shared_claim owner b o)
  unfolding on_shared_claim put_throttle
  shared-Once s owner run_id item store b o (inl e) h = rw e (unfold on_shared_claim claims_at in h)
  shared-Once s owner run_id item store b o (inr g) h = rw g.is_left (
      rw (shared_claims_at s owner b g.granted _) (
        rw g.same_store (
          rw
            (register_throttle uniform catalog config min_interval run_id item store g.row
              (some owner) now b.db)
            (granted-Once now min_interval s store (claims_at s b) b.db.throttle positive
              (may_claim_gives item store g.row now b.db g.may).0 h))))

  target-Once :
      (s : ℕ) (a : Attempt) (t : Target) (b : Batch)
      → IsShopOnce s b
      → IsShopOnce s (claim_target uniform catalog config min_interval now a t b)
  unfolding claim_target
  target-Once s a (legacy_store c) b h =
      legacy-Once s a.owner_user_id a.run_id c b _
        (claim_source_cases uniform catalog config min_interval a.run_id c now b.db) h
  target-Once s a (shared item store) b h =
      shared-Once s a.owner_user_id a.run_id item store b _
        (claim_cases uniform catalog config min_interval a.run_id item store (some a.owner_user_id)
          now b.db)
        h

  attempts-Once :
      (s : ℕ) (as' : List Attempt) (b : Batch)
      → IsShopOnce s b
      → IsShopOnce s (claim_attempts uniform catalog config min_interval now as' b)
  unfolding claim_attempts
  attempts-Once s [] b h = h
  attempts-Once s (a ∷ as') b h =
      attempts-Once s as' (claim_target uniform catalog config min_interval now a a.target b)
        (target-Once s a a.target b h)

  empty-Once : (s : ℕ) (db : Db) → IsShopOnce s (empty_batch db)
  unfolding claims_at count_of
  empty-Once s db = (omega arith, inl refl)

module _ (uniform cooldown : ℕ → ℕ → ℕ) (is_space : ℕ → Bool) (is_locked : ℕ → Bool)
    (catalog : Catalog) (config : CadenceConfig) (min_interval lo hi : ℕ) where
  claim_reserved_once :
      (s : ℕ) (reserved : List ℕ) (queue : QueueTable) (selected : List Attempt) (now turn_id : ℕ)
      (db : Db)
      → 1 ≤ min_interval
      → claims_at s
          (claim_reserved uniform cooldown is_space is_locked catalog config min_interval lo hi
            reserved queue selected now turn_id db).batch
        ≤ 1
  unfolding claim_reserved
  claim_reserved_once s [] queue selected now turn_id db p =
      (empty-Once uniform catalog config min_interval now p s db).0
  claim_reserved_once s (u ∷ us) queue selected now turn_id db p =
      (attempts-Once uniform catalog config min_interval now p s
        (build_claim_attempts is_space selected (u ∷ us)) (empty_batch db)
        (empty-Once uniform catalog config min_interval now p s db)).0

  -- With a positive minimum interval, one batch is granted at most one claim at each shop, over
  -- both paths and all users, whatever was selected.
  pub claim_due_work_once :
      (s : ℕ) (owner_ids : List ℕ) (selected : List Attempt) (now turn_id : ℕ) (db : Db)
      (queue : QueueTable)
      → 1 ≤ min_interval
      → claims_at s
          (claim_due_work uniform cooldown is_space is_locked catalog config min_interval lo hi
            owner_ids selected now turn_id db queue).batch
        ≤ 1
  unfolding claim_due_work
  claim_due_work_once s owner_ids selected now turn_id db queue p =
      claim_reserved_once s (reserve_fairness_owners is_locked owner_ids now queue).0
        (reserve_fairness_owners is_locked owner_ids now queue).1 selected now turn_id db p

-- ===== src/Collection/Batch/Granted.antt =====
-- backend/app/collection/orchestration.py: the claims that a batch is granted, followed over the tables
-- without the batch's own bookkeeping, and the owners that the bookkeeping collects.
use aishopping_agent.Common.{
  inl, inr, Bool-cases, ℕ, ◌≡◌, refl, sym, ap, Bool, true, false, ◌||◌, List, [], ◌∷◌, Option, none,
  some, arith, any_of, if◌then◌else◌,
}
use aishopping_agent.Collection.Cadence.{CadenceConfig, is_in}
use aishopping_agent.Collection.Claim.{claim_source, claim_shared_collection}
use aishopping_agent.Collection.Tables.{SharedClaim, ClaimedCollection, Catalog, Db}
use aishopping_agent.Collection.Batch.{
  Target, legacy_store, shared, Attempt, Batch, add_owner, on_legacy_claim, on_shared_claim,
  claim_target, claim_attempts,
}

abbrev is_granted : {A : Type 0} → Option A → Bool
is_granted none = false
is_granted (some x) = true

module _ (uniform : ℕ → ℕ → ℕ) (catalog : Catalog) (config : CadenceConfig)
    (min_interval now : ℕ) where
  -- The claim that an attempt makes, on given tables: whether it is granted, and the tables after it.
  unfoldable pub claim_of : Attempt → Target → Db → Bool × Db
  claim_of a (legacy_store c) db =
      let result = claim_source uniform catalog config min_interval a.run_id c now db in
      (is_granted result.0, result.1)
  claim_of a (shared item store) db =
      let result =
        claim_shared_collection uniform catalog config min_interval a.run_id item store
          (some a.owner_user_id) now db in
      (is_granted result.0, result.1)

  -- The owners of the attempts whose claims are granted, one after another.
  unfoldable pub granted_owners : List Attempt → Db → List ℕ
  unfolding claim_of
  granted_owners [] db = []
  granted_owners (a ∷ as') db =
      let (granted, after) = claim_of a a.target db in
      let rest = granted_owners as' after in if granted then a.owner_user_id ∷ rest else rest

  is_in-add_owner : (u v : ℕ) (us : List ℕ) → is_in u (add_owner v us) ≡ is_in u (v ∷ us)
  unfolding add_owner is_in any_of
  is_in-add_owner u v us = elim (Bool-cases (is_in v us)) [
    | inr e ↦ rw e refl
    | inl e ↦ ground (arith, e, same v us u)
  ]
    where
      same : (v : ℕ) (us : List ℕ) (u : ℕ) → is_in v us ≡ true → v ≡ u → is_in u us ≡ true
      same v us u e q = rw (sym q) e

  on_legacy_granted :
      (u v : ℕ) (b : Batch) (o : Option ClaimedCollection × Db)
      → ((on_legacy_claim v b o).db ≡ o.1)
        × (is_in u (on_legacy_claim v b o).claimed_owners
            ≡ (if is_granted o.0 then is_in u (v ∷ b.claimed_owners) else is_in u b.claimed_owners))
  unfolding on_legacy_claim
  on_legacy_granted u v b (none, db) = (refl, refl)
  on_legacy_granted u v b (some c, db) = (refl, is_in-add_owner u v b.claimed_owners)

  on_shared_granted :
      (u v : ℕ) (b : Batch) (o : Option SharedClaim × Db)
      → ((on_shared_claim v b o).db ≡ o.1)
        × (is_in u (on_shared_claim v b o).claimed_owners
            ≡ (if is_granted o.0 then is_in u (v ∷ b.claimed_owners) else is_in u b.claimed_owners))
  unfolding on_shared_claim
  on_shared_granted u v b (none, db) = (refl, refl)
  on_shared_granted u v b (some c, db) = (refl, is_in-add_owner u v b.claimed_owners)

  target_granted :
      (u : ℕ) (a : Attempt) (t : Target) (b : Batch)
      → let after = claim_target uniform catalog config min_interval now a t b in
        (after.db ≡ (claim_of a t b.db).1)
        × (is_in u after.claimed_owners ≡ (
            if (claim_of a t b.db).0
            then is_in u (a.owner_user_id ∷ b.claimed_owners)
            else is_in u b.claimed_owners))
  unfolding claim_target claim_of
  target_granted u a (legacy_store c) b = on_legacy_granted u a.owner_user_id b _
  target_granted u a (shared item store) b = on_shared_granted u a.owner_user_id b _

  pub claimed-granted :
      (u : ℕ) (as' : List Attempt) (b : Batch)
      → is_in u (claim_attempts uniform catalog config min_interval now as' b).claimed_owners
        ≡ (is_in u b.claimed_owners || is_in u (granted_owners as' b.db))
  unfolding claim_attempts granted_owners is_in any_of
  claimed-granted u [] b = ground arith
  claimed-granted u (a ∷ as') b =
      let after = claim_target uniform catalog config min_interval now a a.target b in
      let (tables, owners) = target_granted u a a.target b in
      let rest = claimed-granted u as' after in
      let moved : granted_owners as' after.db ≡ granted_owners as' (claim_of a a.target b.db).1 =
        ap (granted_owners as') tables in
      elim (Bool-cases (claim_of a a.target b.db).0) [
        | inl e ↦ ground (arith, e, owners, rest, moved)
        | inr e ↦ ground (arith, e, owners, rest, moved)
      ]

-- ===== src/Collection/Batch/Charges.antt =====
-- backend/app/collection/orchestration.py: who is charged with a turn after a batch.
use aishopping_agent.Collection.Batch.Granted.{granted_owners, claimed-granted}
use aishopping_agent.Common.{
  keep, sort_by, true, false, ◌⊎◌, ◌∙◌, inl, inr, Bool-cases, ℕ, ◌≡◌, refl, Bool, ◌&&◌, List, [],
  ◌∷◌, Option, none, some, arith, All, All-elem, All-of_Elem, Elem, Elem-keep, Elem-sort, any_of,
  if◌then◌else◌,
}
use aishopping_agent.Collection.Cadence.{CadenceConfig, is_in}
use aishopping_agent.Collection.Tables.{SharedClaim, ClaimedCollection, Catalog, Db}
use aishopping_agent.Collection.Fairness.{QueueTable, reserve_fairness_owners}
use aishopping_agent.Collection.Batch.{
  Target, legacy_store, shared, Attempt, Batch, add_owner, on_legacy_claim, on_shared_claim,
  claim_target, claim_attempts, empty_batch, claim_reserved, claim_due_work, build_claim_attempts,
  attempt_order, has_query,
}
use aishopping_agent.Collection.Batch.Turns.{
  Elem-is_in, HasRow, IsReserved, reserve-IsReserved, charged, commit_turns_charge,
}

module _ (P : ℕ → Type 0) where
  add_owner-All : (u : ℕ) (us : List ℕ) → P u → All P us → All P (add_owner u us)
  unfolding add_owner
  add_owner-All u us p h = elim (Bool-cases (is_in u us)) [ inl e ↦ rw e h | inr e ↦ rw e (p, h) ]

  legacy_owners :
      (u : ℕ) (b : Batch) (o : Option ClaimedCollection × Db)
      → P u
      → All P b.claimed_owners
      → All P (on_legacy_claim u b o).claimed_owners
  unfolding on_legacy_claim
  legacy_owners u b (none, db) p h = h
  legacy_owners u b (some c, db) p h = add_owner-All u b.claimed_owners p h

  shared_owners :
      (u : ℕ) (b : Batch) (o : Option SharedClaim × Db)
      → P u
      → All P b.claimed_owners
      → All P (on_shared_claim u b o).claimed_owners
  unfolding on_shared_claim
  shared_owners u b (none, db) p h = h
  shared_owners u b (some c, db) p h = add_owner-All u b.claimed_owners p h

  module _ (uniform : ℕ → ℕ → ℕ) (catalog : Catalog) (config : CadenceConfig)
      (min_interval now : ℕ) where
    target_owners :
        (a : Attempt) (t : Target) (b : Batch)
        → P a.owner_user_id
        → All P b.claimed_owners
        → All P (claim_target uniform catalog config min_interval now a t b).claimed_owners
    unfolding claim_target
    target_owners a (legacy_store c) b p h = legacy_owners a.owner_user_id b _ p h
    target_owners a (shared item store) b p h = shared_owners a.owner_user_id b _ p h

    claimed_owners_from :
        (as' : List Attempt) (b : Batch)
        → All (λ a. P a.owner_user_id) as'
        → All P b.claimed_owners
        → All P (claim_attempts uniform catalog config min_interval now as' b).claimed_owners
    unfolding claim_attempts
    claimed_owners_from [] b p h = h
    claimed_owners_from (a ∷ as') b p h =
        claimed_owners_from as' (claim_target uniform catalog config min_interval now a a.target b)
          p.1 (target_owners a a.target b p.0 h)

attempts_reserved :
    (is_space : ℕ → Bool) (selected : List Attempt) (reserved : List ℕ)
    → All (λ a. Elem a.owner_user_id reserved) (build_claim_attempts is_space selected reserved)
unfolding build_claim_attempts
attempts_reserved is_space selected reserved =
    All-of_Elem (λ a. Elem a.owner_user_id reserved) _
      (λ a m.
        let k =
          Elem-keep (λ x. is_in x.owner_user_id reserved && has_query is_space x.target) a selected
            (Elem-sort attempt_order a _ m) in
        let t = k.1 in Elem-is_in a.owner_user_id reserved (ground arith))

module _ (uniform cooldown : ℕ → ℕ → ℕ) (is_space : ℕ → Bool) (is_locked : ℕ → Bool)
    (catalog : Catalog) (config : CadenceConfig) (min_interval lo hi : ℕ) where
  claim_reserved_owners :
      (reserved : List ℕ) (queue : QueueTable) (selected : List Attempt) (now turn_id : ℕ) (db : Db)
      → All
          (λ u. Elem u reserved)
          (claim_reserved uniform cooldown is_space is_locked catalog config min_interval lo hi
            reserved queue selected now turn_id db).batch.claimed_owners
  unfolding claim_reserved
  claim_reserved_owners [] queue selected now turn_id db = tt
  claim_reserved_owners (u ∷ us) queue selected now turn_id db =
      claimed_owners_from (λ x. Elem x (u ∷ us)) uniform catalog config min_interval now
        (build_claim_attempts is_space selected (u ∷ us)) (empty_batch db)
        (attempts_reserved is_space selected (u ∷ us)) tt

  claim_reserved_charge :
      (u : ℕ) (reserved : List ℕ) (queue : QueueTable) (selected : List Attempt) (now turn_id : ℕ)
      (db : Db)
      → ((x : ℕ) → Elem x reserved → HasRow queue x)
      → (claim_reserved uniform cooldown is_space is_locked catalog config min_interval lo hi
            reserved queue selected now turn_id db).queue
          u
        ≡ (if is_in u
              (claim_reserved uniform cooldown is_space is_locked catalog config min_interval lo hi
                reserved queue selected now turn_id db).batch.claimed_owners
            then some (charged cooldown now turn_id lo hi)
            else queue u)
  unfolding claim_reserved is_in any_of
  claim_reserved_charge u [] queue selected now turn_id db f = refl
  claim_reserved_charge u (v ∷ vs) queue selected now turn_id db f =
      let batch =
        claim_attempts uniform catalog config min_interval now
          (build_claim_attempts is_space selected (v ∷ vs)) (empty_batch db) in
      commit_turns_charge cooldown now turn_id lo hi u batch.claimed_owners queue (λ i. f u (
        All-elem (λ x. Elem x (v ∷ vs)) u batch.claimed_owners
          (claim_reserved_owners (v ∷ vs) queue selected now turn_id db)
          (Elem-is_in u batch.claimed_owners i)))

  charged_owners :
      (u : ℕ) (owner_ids : List ℕ) (selected : List Attempt) (now turn_id : ℕ) (db : Db)
      (queue : QueueTable)
      → All
          (IsReserved is_locked owner_ids now
            (reserve_fairness_owners is_locked owner_ids now queue).1)
          (claim_due_work uniform cooldown is_space is_locked catalog config min_interval lo hi
            owner_ids selected now turn_id db queue).batch.claimed_owners
        × ((claim_due_work uniform cooldown is_space is_locked catalog config min_interval lo hi
                owner_ids selected now turn_id db queue).queue
              u
            ≡ (if is_in u
                  (claim_due_work uniform cooldown is_space is_locked catalog config min_interval lo
                    hi owner_ids selected now turn_id db queue).batch.claimed_owners
                then some (charged cooldown now turn_id lo hi)
                else (reserve_fairness_owners is_locked owner_ids now queue).1 u))
  unfolding claim_due_work
  charged_owners u owner_ids selected now turn_id db queue =
      let r = reserve_fairness_owners is_locked owner_ids now queue in
      (
        All-of_Elem _ _ (λ x m. reserve-IsReserved is_locked owner_ids now queue x (
            All-elem (λ y. Elem y r.0) x _ (claim_reserved_owners r.0 r.1 selected now turn_id db)
              m)),
        claim_reserved_charge u r.0 r.1 selected now turn_id db
            (λ x m. (reserve-IsReserved is_locked owner_ids now queue x m).row),
      )

is_in-Elem : (u : ℕ) (us : List ℕ) → Elem u us → is_in u us ≡ true
unfolding is_in any_of
is_in-Elem u [] m = absurd m
is_in-Elem u (v ∷ us) (inl q) = ground (arith, q)
is_in-Elem u (v ∷ us) (inr m) = ground (arith, is_in-Elem u us m)

if_true : {A : Type 0} → {b : Bool} (x y : A) → b ≡ true → (if b then x else y) ≡ x
if_true x y e = rw e refl

if_false : {A : Type 0} → {b : Bool} (x y : A) → b ≡ false → (if b then x else y) ≡ y
if_false x y e = rw e refl

-- The owners of the claims that a batch is granted: of the attempts built for the reserved owners, on the
-- tables that it finds.
abbrev pub batch_granted :
    (ℕ → ℕ → ℕ) → (ℕ → Bool) → Catalog → CadenceConfig → ℕ → List Attempt → List ℕ → ℕ → Db → List ℕ
batch_granted uniform is_space catalog config min_interval selected reserved now db =
    granted_owners uniform catalog config min_interval now
      (build_claim_attempts is_space selected reserved) db

keep_none :
    (is_space : ℕ → Bool) (as' : List Attempt)
    → keep (λ a. is_in a.owner_user_id [] && has_query is_space a.target) as' ≡ []
unfolding keep is_in any_of
keep_none is_space [] = refl
keep_none is_space (a ∷ as') = keep_none is_space as'

none_reserved :
    (selected : List Attempt) (is_space : ℕ → Bool) → build_claim_attempts is_space selected [] ≡ []
unfolding build_claim_attempts sort_by
none_reserved selected is_space = rw (keep_none is_space selected) refl

module _ (uniform cooldown : ℕ → ℕ → ℕ) (is_space : ℕ → Bool) (is_locked : ℕ → Bool)
    (catalog : Catalog) (config : CadenceConfig) (min_interval lo hi : ℕ) where
  reserved_granted :
      (u : ℕ) (reserved : List ℕ) (queue : QueueTable) (selected : List Attempt) (now turn_id : ℕ)
      (db : Db)
      → is_in u
          (claim_reserved uniform cooldown is_space is_locked catalog config min_interval lo hi
            reserved queue selected now turn_id db).batch.claimed_owners
        ≡ is_in u
            (batch_granted uniform is_space catalog config min_interval selected reserved now db)
  unfolding claim_reserved granted_owners is_in any_of
  reserved_granted u [] queue selected now turn_id db = rw (none_reserved selected is_space) refl
  reserved_granted u (v ∷ vs) queue selected now turn_id db =
      claimed-granted uniform catalog config min_interval now u
        (build_claim_attempts is_space selected (v ∷ vs)) (empty_batch db)

  due_granted :
      (u : ℕ) (owner_ids : List ℕ) (selected : List Attempt) (now turn_id : ℕ) (db : Db)
      (queue : QueueTable)
      → is_in u
          (claim_due_work uniform cooldown is_space is_locked catalog config min_interval lo hi
            owner_ids selected now turn_id db queue).batch.claimed_owners
        ≡ is_in u (
            batch_granted uniform is_space catalog config min_interval selected
              (reserve_fairness_owners is_locked owner_ids now queue).0
              now
              db)
  unfolding claim_due_work
  due_granted u owner_ids selected now turn_id db queue =
      let r = reserve_fairness_owners is_locked owner_ids now queue in
      reserved_granted u r.0 r.1 selected now turn_id db

  -- After a batch the row of every user who owns an attempt whose claim was granted is that of a
  -- turn just taken, and every other user's row is the one that the reservation left; and each who
  -- was granted a claim is one of the candidates, whose row nobody else held and who was out of the
  -- cooldown. The claims are those of the batch's attempts, made one after another on the tables
  -- that it finds.
  pub claim_due_work_charges :
      (u : ℕ) (owner_ids : List ℕ) (selected : List Attempt) (now turn_id : ℕ) (db : Db)
      (queue : QueueTable)
      → let reserved = reserve_fairness_owners is_locked owner_ids now queue in
        let granted =
          batch_granted uniform is_space catalog config min_interval selected reserved.0 now db in
        let after =
          claim_due_work uniform cooldown is_space is_locked catalog config min_interval lo hi
            owner_ids selected now turn_id db queue in
        (Elem u granted
          × (after.queue u ≡ some (charged cooldown now turn_id lo hi))
          × IsReserved is_locked owner_ids now reserved.1 u)
        ⊎ ((Elem u granted → ⊥) × (after.queue u ≡ reserved.1 u))
  claim_due_work_charges u owner_ids selected now turn_id db queue =
      let reserved = reserve_fairness_owners is_locked owner_ids now queue in
      let granted =
        batch_granted uniform is_space catalog config min_interval selected reserved.0 now db in
      let after =
        claim_due_work uniform cooldown is_space is_locked catalog config min_interval lo hi
          owner_ids selected now turn_id db queue in
      let (candidates, row) =
        charged_owners uniform cooldown is_space is_locked catalog config min_interval lo hi u
          owner_ids selected now turn_id db queue in
      let same = due_granted u owner_ids selected now turn_id db queue in
      elim (Bool-cases (is_in u granted)) [
        | inl t ↦
            let claimed : is_in u after.batch.claimed_owners ≡ true = same ∙ t in
            inl (
              Elem-is_in u granted t,
              row ∙ if_true _ _ claimed,
              All-elem _ u after.batch.claimed_owners candidates
                  (Elem-is_in u after.batch.claimed_owners claimed),
            )
        | inr f ↦
            let unclaimed : is_in u after.batch.claimed_owners ≡ false = same ∙ f in
            inr (λ m. (let t = is_in-Elem u granted m in cc), row ∙ if_false _ _ unclaimed)
      ]

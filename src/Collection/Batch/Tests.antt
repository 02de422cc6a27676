-- ===== src/Collection/Batch/Tests.antt =====
-- Two users who both want the same shop.
use aishopping_agent.Common.Texts.{text_in}
use aishopping_agent.Collection.Claim.{claim_shared_collection}
use aishopping_agent.Common.{
  ◌⊎◌, Elem, any_of, sort_by, keep, ℕ, ◌≤◌, ◌≡◌, refl, Bool, false, List, [], ◌∷◌, none, some,
  arith,
}
use aishopping_agent.Collection.Claim.Tests.{lowest, usual, shops, new_tables}
use aishopping_agent.Collection.Fairness.{QueueTable, reserve_fairness_owners}
use aishopping_agent.Collection.Batch.{Attempt, shared, Claimed, claim_due_work}
use aishopping_agent.Collection.Batch.Shops.{claims_at, claim_due_work_once}
use aishopping_agent.Collection.Batch.Turns.{charged, IsReserved}
use aishopping_agent.Collection.Batch.Charges.{batch_granted, claim_due_work_charges}

abbrev draw : ℕ → ℕ → ℕ
draw lo hi = lo

abbrev never : ℕ → Bool
never c = false

abbrev nobody : QueueTable
nobody u = none

abbrev wanted : List Attempt
wanted =
    record { owner_user_id = 1; due_at = 0; resource_id = []; run_id = 10; target = shared 7 2 }
    ∷ record { owner_user_id = 4; due_at = 5; resource_id = []; run_id = 11; target = shared 8 2 }
    ∷ []

abbrev result : Claimed
result =
    claim_due_work lowest draw never never shops usual 2000000 60 180 (1 ∷ 4 ∷ []) wanted 100 99
      new_tables nobody

grants : result.batch.claimed_owners ≡ 1 ∷ []
unfolding claim_due_work reserve_fairness_owners keep sort_by any_of claim_shared_collection text_in
grants = refl

claim_due_work_once_example : claims_at 2 result.batch ≤ 1
claim_due_work_once_example =
    claim_due_work_once lowest draw never never shops usual 2000000 60 180 2 (1 ∷ 4 ∷ []) wanted 100
      99 new_tables nobody (omega arith)

abbrev granted : List ℕ
granted =
    batch_granted lowest never shops usual 2000000 wanted
      (reserve_fairness_owners never (1 ∷ 4 ∷ []) 100 nobody).0 100 new_tables

claim_due_work_charges_example :
    (Elem 4 granted
      × (result.queue 4 ≡ some (charged draw 100 99 60 180))
      × IsReserved never
          (1 ∷ 4 ∷ [])
          100
          (reserve_fairness_owners never (1 ∷ 4 ∷ []) 100 nobody).1
          4)
    ⊎ ((Elem 4 granted → ⊥)
        × (result.queue 4 ≡ (reserve_fairness_owners never (1 ∷ 4 ∷ []) 100 nobody).1 4))
claim_due_work_charges_example =
    claim_due_work_charges lowest draw never never shops usual 2000000 60 180 4 (1 ∷ 4 ∷ []) wanted
      100 99 new_tables nobody

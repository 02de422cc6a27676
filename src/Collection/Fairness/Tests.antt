-- ===== src/Collection/Fairness/Tests.antt =====
-- Three users, of whom the second waits.
use aishopping_agent.Common.{ℕ, ◌≡◌, ◌≢◌, refl, true, List, [], ◌∷◌, none, some, All, inl, inr}
use aishopping_agent.Collection.Fairness.{
  commit_fairness_turn_for_owner, queue_order, QueueTable, UserCollectionQueueState, last_of,
  choose_owner, target_owner,
}
use aishopping_agent.Collection.Fairness.Turns.{
  IsOutOfCooldown, Turn, is_passing, serve, target_owner_fair,
}

abbrev cooldown : ℕ → ℕ → ℕ
cooldown lo hi = lo

abbrev last_at : ℕ → UserCollectionQueueState
last_at t = record {
  last_processed_at = some t;
  next_eligible_at = none;
  last_fairness_turn_id = none;
  updated_at = none;
}

-- Each was last processed at its own number.
abbrev queue : QueueTable
queue u = some (last_at u)

abbrev first : Turn
first = record { user = 1; processed_at = 10; turn_id = 0 }

abbrev others : List Turn
others = record { user = 3; processed_at = 11; turn_id = 1 } ∷ []

chooses : choose_owner queue (3 ∷ 1 ∷ 2 ∷ []) ≡ some 1
unfolding choose_owner queue_order
chooses = refl

passes : All (λ t. is_passing 2 (last_of (queue 2)) t ≡ true) (first ∷ others)
unfolding is_passing last_of
passes = (refl, (refl, tt))

waits : IsOutOfCooldown (serve cooldown 60 180 queue (first ∷ others) 2) 1000
unfolding serve commit_fairness_turn_for_owner
waits = inr (last_at 2, refl, inl refl)

target_owner_fair_example :
    target_owner (serve cooldown 60 180 queue (first ∷ others)) (1 ∷ 2 ∷ []) 1000 ≢ some 1
target_owner_fair_example =
    target_owner_fair cooldown 60 180 queue first others 2 (1 ∷ 2 ∷ []) 1000 (last_at 1) refl passes
      (inr (inl refl)) waits

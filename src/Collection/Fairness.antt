-- ===== src/Collection/Fairness.antt =====
-- backend/app/collection/fairness.py, and the choice of owners in `_select_due_work_for_batch` of
-- orchestration.py: turns of the users that share the worker. The table is a function of the user,
-- and `is_locked` says which rows another transaction holds, which `SKIP LOCKED` passes over.
-- `uniform` draws the cooldown, in microseconds. Identifiers are natural numbers in the order of
-- their texts.
pub mod Turns
mod Tests
use aishopping_agent.Common.{
  ℕ, ◌+◌, List, [], ◌∷◌, Option, none, some, Bool, true, false, not, ◌&&◌, ◌||◌, ◌==◌, ltb, leb,
  if◌then◌else◌, keep, sort_by, take,
}

pub record UserCollectionQueueState : Type 0 where
  pub last_processed_at : Option ℕ
  pub next_eligible_at : Option ℕ
  pub last_fairness_turn_id : Option ℕ
  pub updated_at : Option ℕ

abbrev pub QueueTable : Type 0
QueueTable = ℕ → Option UserCollectionQueueState

unfoldable pub last_of : Option UserCollectionQueueState → Option ℕ
last_of none = none
last_of (some s) = s.last_processed_at

-- The order of the keys `(0, user)` and `(1, last, user)`.
unfoldable pub key_order : Option ℕ → ℕ → Option ℕ → ℕ → Bool
key_order none a none b = leb a b
key_order none a (some t) b = true
key_order (some s) a none b = false
key_order (some s) a (some t) b = ltb s t || (s == t && leb a b)

unfoldable pub queue_order : QueueTable → ℕ → ℕ → Bool
unfolding key_order last_of
queue_order table a b = key_order (last_of (table a)) a (last_of (table b)) b

unfoldable pub eligible_at : Option ℕ → ℕ → Bool
eligible_at none due_at = true
eligible_at (some t) due_at = leb t due_at

unfoldable pub is_user_eligible : Option UserCollectionQueueState → ℕ → Bool
unfolding eligible_at
is_user_eligible none due_at = true
is_user_eligible (some s) due_at = eligible_at s.next_eligible_at due_at

unfoldable pub put_user : ℕ → UserCollectionQueueState → QueueTable → QueueTable
put_user user row table = λ u. if u == user then some row else table u

abbrev pub new_row : UserCollectionQueueState
new_row = record {
  last_processed_at = none;
  next_eligible_at = none;
  last_fairness_turn_id = none;
  updated_at = none;
}

unfoldable pub insert_missing : Option UserCollectionQueueState → ℕ → QueueTable → QueueTable
unfolding put_user
insert_missing none user table = put_user user new_row table
insert_missing (some s) user table = table

-- `ON CONFLICT DO NOTHING`
unfoldable pub ensure_queue_state_rows_exist : List ℕ → QueueTable → QueueTable
unfolding insert_missing
ensure_queue_state_rows_exist [] table = table
ensure_queue_state_rows_exist (u ∷ us) table =
    ensure_queue_state_rows_exist us (insert_missing (table u) u table)

-- The candidates whose rows could be locked and who are out of their cooldown, and the table.
unfoldable pub reserve_fairness_owners : (ℕ → Bool) → List ℕ → ℕ → QueueTable → List ℕ × QueueTable
unfolding ensure_queue_state_rows_exist is_user_eligible
reserve_fairness_owners is_locked candidates due_at table =
    let rows = ensure_queue_state_rows_exist candidates table in
    (
      keep (λ u. not (is_locked u) && is_user_eligible (rows u) due_at) (sort_by leb candidates),
      rows,
    )

-- `min(eligible, key=…)` over users who are out of their cooldown already.
unfoldable pub better_owner : QueueTable → ℕ → Option ℕ → Option ℕ
better_owner table u none = some u
better_owner table u (some w) = if queue_order table u w then some u else some w

unfoldable pub choose_owner : QueueTable → List ℕ → Option ℕ
unfolding better_owner
choose_owner table [] = none
choose_owner table (u ∷ us) = better_owner table u (choose_owner table us)

-- The owner of a target: of the users linked to it, those out of their cooldown are the eligible ones.
unfoldable pub target_owner : QueueTable → List ℕ → ℕ → Option ℕ
unfolding choose_owner is_user_eligible
target_owner table linked due_at =
    choose_owner table (keep (λ u. is_user_eligible (table u) due_at) linked)

-- `sorted(…)[:max_users]`
unfoldable pub selected_owners : QueueTable → List ℕ → ℕ → ℕ → List ℕ
unfolding queue_order is_user_eligible
selected_owners table candidates due_at max_users =
    take max_users
      (sort_by (queue_order table) (keep (λ u. is_user_eligible (table u) due_at) candidates))

module _ (uniform : ℕ → ℕ → ℕ) where
  unfoldable pub turn_of :
      Option UserCollectionQueueState → ℕ → ℕ → ℕ → ℕ → ℕ → QueueTable → QueueTable
  unfolding put_user
  turn_of none user processed_at turn_id lo hi table = table
  turn_of (some s) user processed_at turn_id lo hi table =
      put_user user
        (record {
          last_processed_at = some processed_at;
          next_eligible_at = some (processed_at + uniform lo hi);
          last_fairness_turn_id = some turn_id;
          updated_at = some processed_at;
        })
        table

  -- An `UPDATE`, of the user's row if it has one.
  unfoldable pub commit_fairness_turn_for_owner : ℕ → ℕ → ℕ → ℕ → ℕ → QueueTable → QueueTable
  unfolding turn_of
  commit_fairness_turn_for_owner user processed_at turn_id lo hi table =
      turn_of (table user) user processed_at turn_id lo hi table

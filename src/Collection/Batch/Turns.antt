-- ===== src/Collection/Batch/Turns.antt =====
-- backend/app/collection/fairness.py: the rows of a reservation, and a list of turns committed.
use mathlib.Core.Path.{sym}
use aishopping_agent.Common.{
  inl, inr, Bool-cases, ◌⊎◌, ℕ, ◌+◌, ◌≡◌, refl, ap, ◌∙◌, Bool, true, false, not, ◌&&◌, ◌==◌, leb,
  List, [], ◌∷◌, Option, none, some, arith, Elem, Elem-keep, Elem-sort, sort_by, any_of,
  if◌then◌else◌,
}
use aishopping_agent.Collection.Cadence.{is_in}
use aishopping_agent.Collection.Fairness.{
  UserCollectionQueueState, QueueTable, is_user_eligible, put_user, insert_missing, new_row,
  ensure_queue_state_rows_exist, reserve_fairness_owners, turn_of, commit_fairness_turn_for_owner,
}
use aishopping_agent.Collection.Batch.{commit_turns}

pub Elem-is_in : (u : ℕ) (us : List ℕ) → is_in u us ≡ true → Elem u us
unfolding is_in any_of
Elem-is_in u [] h = ground arith
Elem-is_in u (x ∷ us) h = ground (arith, Elem-is_in u us)

-- The row of a user after a turn.
abbrev pub charged : (ℕ → ℕ → ℕ) → ℕ → ℕ → ℕ → ℕ → UserCollectionQueueState
charged cooldown now turn_id lo hi = record {
  last_processed_at = some now;
  next_eligible_at = some (now + cooldown lo hi);
  last_fairness_turn_id = some turn_id;
  updated_at = some now;
}

module _ (cooldown : ℕ → ℕ → ℕ) (now turn_id lo hi : ℕ) where
  commit_one :
      (u v : ℕ) (queue : QueueTable) (r : Option UserCollectionQueueState)
      → (turn_of cooldown r v now turn_id lo hi queue u ≡ queue u)
        ⊎ ((u ≡ v)
            × (turn_of cooldown r v now turn_id lo hi queue u
                ≡ some (charged cooldown now turn_id lo hi)))
  unfolding turn_of put_user
  commit_one u v queue none = inl refl
  commit_one u v queue (some s) = ground arith

  commit_own :
      (u : ℕ) (queue : QueueTable) (r : UserCollectionQueueState)
      → queue u ≡ some r
      → commit_fairness_turn_for_owner cooldown u now turn_id lo hi queue u
        ≡ some (charged cooldown now turn_id lo hi)
  unfolding commit_fairness_turn_for_owner turn_of put_user
  commit_own u queue r e = rw e (ground arith)

  commit_other :
      (u v : ℕ) (queue : QueueTable)
      → (v == u) ≡ false
      → commit_fairness_turn_for_owner cooldown v now turn_id lo hi queue u ≡ queue u
  unfolding commit_fairness_turn_for_owner
  commit_other u v queue n = elim (commit_one u v queue (queue v)) [
    | inl e ↦ e
    | inr e ↦ ground (arith, e.0)
  ]

  turns_kept :
      (u : ℕ) (us : List ℕ) (queue : QueueTable)
      → queue u ≡ some (charged cooldown now turn_id lo hi)
      → commit_turns cooldown now turn_id lo hi us queue u
        ≡ some (charged cooldown now turn_id lo hi)
  unfolding commit_turns commit_fairness_turn_for_owner
  turns_kept u [] queue e = e
  turns_kept u (v ∷ us) queue e =
      turns_kept u us _ (elim (commit_one u v queue (queue v)) [ inl k ↦ k ∙ e | inr k ↦ k.1 ])

  -- Who is in the list is charged, and nobody else.
  pub commit_turns_charge :
      (u : ℕ) (us : List ℕ) (queue : QueueTable)
      → (is_in u us ≡ true → (r : UserCollectionQueueState) × (queue u ≡ some r))
      → commit_turns cooldown now turn_id lo hi us queue u
        ≡ (if is_in u us then some (charged cooldown now turn_id lo hi) else queue u)
  unfolding commit_turns is_in any_of
  commit_turns_charge u [] queue f = refl
  commit_turns_charge u (v ∷ us) queue f = elim (Bool-cases (v == u)) [
    | inl e ↦ rw e (turns_kept u us _ (own (f (rw e refl)) (ground arith)))
    | inr e ↦ rw e (
        commit_turns_charge u us (commit_fairness_turn_for_owner cooldown v now turn_id lo hi queue)
          (λ i. rw (commit_other u v queue e) (f (rw e i)))
        ∙ ap (λ x. if is_in u us then some (charged cooldown now turn_id lo hi) else x)
            (commit_other u v queue e))
  ]
    where
      own :
          (r : UserCollectionQueueState) × (queue u ≡ some r)
          → v ≡ u
          → commit_fairness_turn_for_owner cooldown v now turn_id lo hi queue u
            ≡ some (charged cooldown now turn_id lo hi)
      own r e = rw e (commit_own u queue r.0 r.1)

-- The rows of the candidates stand after they are made sure of.
abbrev pub HasRow : QueueTable → ℕ → Type 0
HasRow table u = (r : UserCollectionQueueState) × (table u ≡ some r)

insert_missing-HasRow :
    (o : Option UserCollectionQueueState) (v u : ℕ) (table : QueueTable)
    → table v ≡ o
    → (v ≡ u) ⊎ HasRow table u
    → HasRow (insert_missing o v table) u
unfolding insert_missing put_user
insert_missing-HasRow (some s) v u table e (inl q) = (s, ap table (sym q) ∙ e)
insert_missing-HasRow (some s) v u table e (inr h) = h
insert_missing-HasRow none v u table e h = elim (Bool-cases (u == v)) [
  | inl k ↦ rw k (new_row, refl)
  | inr k ↦ rw k (elim h [ inl q ↦ absurd (differ k q) | inr r ↦ r ])
]
  where
    differ : (u == v) ≡ false → v ≡ u → ⊥
    differ k q = ground arith

ensure_kept :
    (us : List ℕ) (u : ℕ) (table : QueueTable)
    → HasRow table u
    → HasRow (ensure_queue_state_rows_exist us table) u
unfolding ensure_queue_state_rows_exist
ensure_kept [] u table h = h
ensure_kept (v ∷ us) u table h =
    ensure_kept us u _ (insert_missing-HasRow (table v) v u table refl (inr h))

ensure-HasRow :
    (us : List ℕ) (u : ℕ) (table : QueueTable)
    → Elem u us
    → HasRow (ensure_queue_state_rows_exist us table) u
unfolding ensure_queue_state_rows_exist
ensure-HasRow [] u table m = absurd m
ensure-HasRow (v ∷ us) u table (inl q) =
    ensure_kept us u _ (insert_missing-HasRow (table v) v u table refl (inl (sym q)))
ensure-HasRow (v ∷ us) u table (inr m) = ensure-HasRow us u _ m

-- What a reservation checks of an owner.
pub record IsReserved (is_locked : ℕ → Bool) (candidates : List ℕ) (now : ℕ) (table : QueueTable)
    (u : ℕ) : Type 0 where
  pub candidate : Elem u candidates
  pub unlocked : is_locked u ≡ false
  pub cooled_down : is_user_eligible (table u) now ≡ true
  pub row : HasRow table u

pub reserve-IsReserved :
    (is_locked : ℕ → Bool) (candidates : List ℕ) (now : ℕ) (table : QueueTable) (u : ℕ)
    → Elem u (reserve_fairness_owners is_locked candidates now table).0
    → IsReserved is_locked candidates now
        (reserve_fairness_owners is_locked candidates now table).1
        u
unfolding reserve_fairness_owners
reserve-IsReserved is_locked candidates now table u m =
    let rows = ensure_queue_state_rows_exist candidates table in
    let k =
      Elem-keep (λ x. not (is_locked x) && is_user_eligible (rows x) now) u (sort_by leb candidates)
        m in
    let c = Elem-sort leb u candidates k.0 in
    let t = k.1 in
    record {
      candidate = c;
      unlocked = ground arith;
      cooled_down = ground arith;
      row = ensure-HasRow candidates u table c;
    }

-- ===== src/Collection/Fairness/Turns.antt =====
-- backend/app/collection/fairness.py: whoever waits is not passed over twice.
use mathlib.Core.Path.{subst}
use aishopping_agent.Common.{
  ◌&&◌, ◌==◌, sym, ◌∙◌, not, ltb, inr, ◌≢◌, Bool, Elem, inl, All, ◌⊎◌, ℕ, ◌≡◌, refl, true, false,
  List, [], ◌∷◌, keep, ◌≤◌, keep-Elem, Option, none, some, arith,
}
use aishopping_agent.Collection.Fairness.{
  eligible_at, put_user, not, ltb, turn_of, Bool, commit_fairness_turn_for_owner,
  UserCollectionQueueState, QueueTable, last_of, key_order, queue_order, better_owner, choose_owner,
  target_owner, is_user_eligible,
}

key_order_total : (s t : Option ℕ) (a b : ℕ) → key_order s a t b ≡ false → key_order t b s a ≡ true
unfolding key_order
key_order_total none none a b h = ground arith
key_order_total none (some t) a b h = ground arith
key_order_total (some s) none a b h = refl
key_order_total (some s) (some t) a b h = ground arith

key_order_trans :
    (r s t : Option ℕ) (a b c : ℕ)
    → key_order r a s b ≡ true
    → key_order s b t c ≡ true
    → key_order r a t c ≡ true
unfolding key_order
key_order_trans none none none a b c h k = ground arith
key_order_trans none none (some t) a b c h k = refl
key_order_trans none (some s) none a b c h k = ground arith
key_order_trans none (some s) (some t) a b c h k = refl
key_order_trans (some r) none t a b c h k = ground arith
key_order_trans (some r) (some s) none a b c h k = ground arith
key_order_trans (some r) (some s) (some t) a b c h k = ground arith

key_order_refl : (s : Option ℕ) (a : ℕ) → key_order s a s a ≡ true
unfolding key_order
key_order_refl none a = ground arith
key_order_refl (some s) a = ground arith

-- The owner that is chosen comes first of all.
better_owner_first :
    (table : QueueTable) (u w : ℕ) (o : Option ℕ)
    → better_owner table u o ≡ some w
    → (queue_order table w u ≡ true)
      × (((o ≡ none) × (w ≡ u)) ⊎ ((x : ℕ) × (o ≡ some x) × (queue_order table w x ≡ true)))
unfolding better_owner queue_order
better_owner_first table u w none h = ground (arith, key_order_refl (last_of (table u)) u)
better_owner_first table u w (some x) h = ground (
  arith,
  key_order_refl (last_of (table u)) u,
  key_order_refl (last_of (table x)) x,
  key_order_total (last_of (table u)) (last_of (table x)) u x,
)

choose_none : (table : QueueTable) (us : List ℕ) → choose_owner table us ≡ none → us ≡ []
unfolding choose_owner better_owner
choose_none table [] h = refl
choose_none table (u ∷ us) h = ground arith

queue_order_trans :
    (table : QueueTable) (a b c : ℕ)
    → queue_order table a b ≡ true
    → queue_order table b c ≡ true
    → queue_order table a c ≡ true
unfolding queue_order
queue_order_trans table a b c =
    key_order_trans (last_of (table a)) (last_of (table b)) (last_of (table c)) a b c

chosen_first :
    (table : QueueTable) (v w : ℕ) (us : List ℕ)
    → choose_owner table us ≡ some w
    → Elem v us
    → queue_order table w v ≡ true
unfolding choose_owner
chosen_first table v w [] h m = absurd m
chosen_first table v w (u ∷ us) h (inl q) =
    rw q (better_owner_first table u w (choose_owner table us) h).0
chosen_first table v w (u ∷ us) h (inr m) =
    elim (better_owner_first table u w (choose_owner table us) h).1 [
      | inl e ↦ absurd (subst (Elem v) (choose_none table us e.0) m)
      | inr e ↦ queue_order_trans table w e.0 v e.2 (chosen_first table v e.0 us e.1 m)
    ]

-- The first has waited longer than the second.
unfoldable pub waits_longer : Option ℕ → Option ℕ → Bool
waits_longer none (some t) = true
waits_longer (some s) (some t) = ltb s t
waits_longer s none = false

waits_longer_order :
    (s t : Option ℕ) (a b : ℕ) → waits_longer s t ≡ true → key_order t b s a ≡ false
unfolding key_order waits_longer
waits_longer_order none (some t) a b h = refl
waits_longer_order (some s) (some t) a b h = ground arith
waits_longer_order none none a b h = ground arith
waits_longer_order (some s) none a b h = ground arith

-- A turn that a user was given.
pub record Turn : Type 0 where
  pub user : ℕ
  pub processed_at : ℕ
  pub turn_id : ℕ

-- The turn is not the user's, and comes after the user's own last one.
unfoldable pub is_passing : ℕ → Option ℕ → Turn → Bool
unfolding waits_longer
is_passing v last t = not (t.user == v) && waits_longer last (some t.processed_at)

-- The user has no row yet, or no cooldown, or one that ends by the given time.
abbrev pub IsOutOfCooldown : Option UserCollectionQueueState → ℕ → Type 0
IsOutOfCooldown row due_at =
    (row ≡ none)
    ⊎ ((s : UserCollectionQueueState) × (row ≡ some s)
        × ((s.next_eligible_at ≡ none) ⊎ ((t : ℕ) × (s.next_eligible_at ≡ some t) × (t ≤ due_at))))

IsOutOfCooldown-eligible :
    (row : Option UserCollectionQueueState) (due_at : ℕ)
    → IsOutOfCooldown row due_at
    → is_user_eligible row due_at ≡ true
unfolding is_user_eligible eligible_at
IsOutOfCooldown-eligible row due_at (inl e) = rw e refl
IsOutOfCooldown-eligible row due_at (inr (s, e, inl n)) = rw e (rw n refl)
IsOutOfCooldown-eligible row due_at (inr (s, e, inr (t, n, l))) = rw e (rw n (ground arith))

module _ (uniform : ℕ → ℕ → ℕ) (lo hi : ℕ) where
  take_turn : Turn → QueueTable → QueueTable
  take_turn t table =
      commit_fairness_turn_for_owner uniform t.user t.processed_at t.turn_id lo hi table

  unfoldable pub serve : QueueTable → List Turn → QueueTable
  unfolding take_turn
  serve table [] = table
  serve table (t ∷ ts) = serve (take_turn t table) ts

  turn_of_last :
      (table : QueueTable) (t : Turn) (u : ℕ) (r : Option UserCollectionQueueState)
      → (last_of (turn_of uniform r t.user t.processed_at t.turn_id lo hi table u)
          ≡ last_of (table u))
        ⊎ ((u ≡ t.user)
            × (last_of (turn_of uniform r t.user t.processed_at t.turn_id lo hi table u)
                ≡ some t.processed_at))
  unfolding turn_of put_user last_of
  turn_of_last table t u none = inl refl
  turn_of_last table t u (some s) = ground arith

  take_turn_last :
      (table : QueueTable) (t : Turn) (u : ℕ)
      → (last_of (take_turn t table u) ≡ last_of (table u))
        ⊎ ((u ≡ t.user) × (last_of (take_turn t table u) ≡ some t.processed_at))
  unfolding take_turn commit_fairness_turn_for_owner
  take_turn_last table t u = turn_of_last table t u (table t.user)

  passing_gives :
      (v : ℕ) (last : Option ℕ) (t : Turn)
      → is_passing v last t ≡ true
      → (t.user ≢ v) × (waits_longer last (some t.processed_at) ≡ true)
  unfolding is_passing
  passing_gives v last t h = ground arith

  -- Who is passed keeps waiting.
  passed_last :
      (table : QueueTable) (t : Turn) (v : ℕ) (last : Option ℕ)
      → is_passing v last t ≡ true
      → last_of (take_turn t table v) ≡ last_of (table v)
  passed_last table t v last h = elim (take_turn_last table t v) [
    | inl e ↦ e
    | inr e ↦ absurd ((passing_gives v last t h).0 (sym e.0))
  ]

  served_behind :
      (table : QueueTable) (t : Turn) (v u : ℕ) (last : Option ℕ)
      → is_passing v last t ≡ true
      → waits_longer last (last_of (table u)) ≡ true
      → waits_longer last (last_of (take_turn t table u)) ≡ true
  served_behind table t v u last h k = elim (take_turn_last table t u) [
    | inl e ↦ rw e k
    | inr e ↦ rw e.1 ((passing_gives v last t h).1)
  ]

  serve_behind :
      (table : QueueTable) (ts : List Turn) (v u : ℕ) (last : Option ℕ)
      → All (λ t. is_passing v last t ≡ true) ts
      → last_of (table v) ≡ last
      → waits_longer last (last_of (table u)) ≡ true
      → (last_of (serve table ts v) ≡ last)
        × (waits_longer last (last_of (serve table ts u)) ≡ true)
  unfolding serve
  serve_behind table [] v u last h e k = (e, k)
  serve_behind table (t ∷ ts) v u last h e k =
      serve_behind (take_turn t table) ts v u last h.1 (passed_last table t v last h.0 ∙ e)
        (served_behind table t v u last h.0 k)

  first_turn :
      (table : QueueTable) (t : Turn) (r : UserCollectionQueueState)
      → table t.user ≡ some r
      → last_of (take_turn t table t.user) ≡ some t.processed_at
  unfolding take_turn commit_fairness_turn_for_owner turn_of put_user last_of
  first_turn table t r e = rw e (ground arith)

  chosen_fair :
      (table : QueueTable) (first : Turn) (ts : List Turn) (v : ℕ) (linked : List ℕ)
      (r : UserCollectionQueueState)
      → table first.user ≡ some r
      → All (λ t. is_passing v (last_of (table v)) t ≡ true) (first ∷ ts)
      → Elem v linked
      → choose_owner (serve table (first ∷ ts)) linked ≢ some first.user
  unfolding serve queue_order
  chosen_fair table first ts v linked r e h m chosen =
      let after = serve (take_turn first table) ts in
      let behind =
        serve_behind (take_turn first table) ts v first.user (last_of (table v)) h.1
          (passed_last table first v (last_of (table v)) h.0)
          (rw (first_turn table first r e) ((passing_gives v (last_of (table v)) first h.0).1)) in
      let late =
        waits_longer_order (last_of (after v)) (last_of (after first.user)) v first.user
          (rw behind.0 behind.1) in
      ground (arith, late, chosen_first after v first.user linked chosen m)

  -- While a user waits among those linked to a target, and is out of the cooldown at the time of the
  -- choice, someone who has had a turn in the meantime is not chosen as the target's owner, however
  -- many others have had theirs: each passes who waits once at most. The turns are not the
  -- waiting user's and come after that user's own last one.
  pub target_owner_fair :
      (table : QueueTable) (first : Turn) (ts : List Turn) (v : ℕ) (linked : List ℕ) (due_at : ℕ)
      (r : UserCollectionQueueState)
      → table first.user ≡ some r
      → All (λ t. is_passing v (last_of (table v)) t ≡ true) (first ∷ ts)
      → Elem v linked
      → IsOutOfCooldown (serve table (first ∷ ts) v) due_at
      → target_owner (serve table (first ∷ ts)) linked due_at ≢ some first.user
  unfolding target_owner
  target_owner_fair table first ts v linked due_at r e h m out =
      let after = serve table (first ∷ ts) in
      chosen_fair table first ts v (keep (λ u. is_user_eligible (after u) due_at) linked) r e h (
        keep-Elem (λ u. is_user_eligible (after u) due_at) v linked m
          (IsOutOfCooldown-eligible (after v) due_at out))

-- ===== src/Missions/Lifecycle/Stores.antt =====
-- What switching stores on and off does to each row of `monitoring_item_stores`.
use aishopping_agent.Common.{
  inr, inl, Option-cases, insert, ℕ, ◌≡◌, refl, Bool, false, not, ◌&&◌, ◌||◌, Option, none, some,
  List, [], ◌∷◌, ◌==◌, arith, any_of, leb, sort_by, ◌∙◌,
}
use aishopping_agent.Missions.Data.{Mission, contains}
use aishopping_agent.Missions.Lifecycle.{
  ItemStore, set_item_store, activate_item_stores, disable_unless,
  deactivate_item_stores_if_unneeded, other_active_mission_needs_store,
}

abbrev pub row_enabled : Option ItemStore → Bool
row_enabled none = false
row_enabled (some r) = r.is_enabled

-- whether collection is switched on for an item at a store
abbrev pub enabled : (ℕ → ℕ → Option ItemStore) → ℕ → ℕ → Bool
enabled f i s = row_enabled (f i s)

pub enabled-activate :
    (item : ℕ) (stores : List ℕ) (now : ℕ) (f : ℕ → ℕ → Option ItemStore) (i s : ℕ)
    → enabled (activate_item_stores item stores now f) i s
      ≡ ((i == item && contains s stores) || enabled f i s)
unfolding activate_item_stores contains any_of
enabled-activate item [] now f i s = ground arith
enabled-activate item (store ∷ stores) now f i s =
    enabled-activate item stores now _ i s ∙ ground arith

module _ (item excluding now : ℕ) (ms : List Mission) where
  enabled-disable :
      (needed : Bool) (store : ℕ) (f : ℕ → ℕ → Option ItemStore) (i s : ℕ)
      → enabled (disable_unless needed item store now (f item store) f) i s
        ≡ (enabled f i s && not (i == item && s == store && not needed))
  unfolding disable_unless set_item_store
  enabled-disable needed store f i s = elim (Option-cases (f item store)) [
    | inl e ↦ ground arith
    | inr (row, e) ↦ ground arith
  ]

  pub enabled-deactivate :
      (stores : List ℕ) (f : ℕ → ℕ → Option ItemStore) (i s : ℕ)
      → enabled (deactivate_item_stores_if_unneeded item stores excluding now ms f) i s ≡ (
          enabled f i s
          && not (
              i == item
              && contains s stores
              && not (other_active_mission_needs_store item s excluding ms)))
  unfolding deactivate_item_stores_if_unneeded contains any_of
  enabled-deactivate [] f i s = ground arith
  enabled-deactivate (store ∷ stores) f i s =
      enabled-deactivate stores _ i s
      ∙ ground (
        arith,
        enabled-disable (other_active_mission_needs_store item store excluding ms) store f i s,
      )

contains-insert : (s x : ℕ) (ys : List ℕ) → contains s (insert leb x ys) ≡ (x == s || contains s ys)
unfolding contains any_of insert
contains-insert s x [] = ground arith
contains-insert s x (y ∷ ys) = ground (arith, contains-insert s x ys)

pub contains-sort : (s : ℕ) (xs : List ℕ) → contains s (sort_by leb xs) ≡ contains s xs
unfolding sort_by contains any_of
contains-sort s [] = refl
contains-sort s (x ∷ xs) = contains-insert s x (sort_by leb xs) ∙ ground (arith, contains-sort s xs)

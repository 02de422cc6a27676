-- ===== src/Missions/Lifecycle/Demand.antt =====
-- Collection at a store is switched on for an item exactly while an active mission needs it.
use mathlib.Core.Path.{subst}
use aishopping_agent.Common.{
  ◌∙◌, sym, ap, leb, sort_by, inr, inl, Option-cases, Bool-cases, refl, ℕ, ◌≡◌, Bool, not, ◌&&◌,
  ◌||◌, Option, some, List, ◌==◌, arith, any_of, opt_eq,
}
use aishopping_agent.Common.Time.{Datetime}
use aishopping_agent.Missions.Data.{
  MissionStatus, MissionCommand, Mission, is_active, contains, replace_mission,
}
use aishopping_agent.Missions.Lookup.{
  HasUniqueIds, replace-HasUniqueIds, find-replace, any-others-replace, any-split, find_mission-id,
}
use aishopping_agent.Missions.Lifecycle.{
  ItemStore, Transition, Db, ok, needs, other_active_mission_needs_store, activate_monitoring,
  deactivate_monitoring,
}
use aishopping_agent.Missions.Lifecycle.Step.{
  Request, Context, moved, monitoring_after, transition_mission,
}
use aishopping_agent.Missions.Lifecycle.Rows.{Succeeds, transition-Succeeds}
use aishopping_agent.Missions.Lifecycle.Stores.{
  enabled, enabled-activate, enabled-deactivate, contains-sort,
}

pub record MeetsDemand (db : Db) : Type 0 where
  pub unique : HasUniqueIds db.missions
  pub demand :
      (item store : ℕ) → enabled db.item_store item store ≡ any_of (needs item store) db.missions

moved-id :
    (next : MissionStatus) (command : MissionCommand) (now : ℕ) (m : Mission)
    → (moved next command now m).id ≡ m.id
unfolding moved
moved-id next command now m = refl

moved-needs :
    (next : MissionStatus) (command : MissionCommand) (now item store : ℕ) (m : Mission)
    → needs item store (moved next command now m)
      ≡ (opt_eq m.item_link (some item) && is_active next && contains store m.sources)
unfolding moved needs
moved-needs next command now item store m = refl

enabled-activate_monitoring :
    (m : Mission) (now : ℕ) (f : ℕ → ℕ → Option ItemStore) (item store : ℕ)
    → enabled (activate_monitoring m now f) item store
      ≡ ((opt_eq m.item_link (some item) && contains store m.sources) || enabled f item store)
unfolding activate_monitoring
enabled-activate_monitoring m now f item store = elim (Option-cases m.item_link) [
  | inl e ↦ rw e
  | inr (i, e) ↦ rw e (
      ground (
        arith,
        enabled-activate i (sort_by leb m.sources) now f item store,
        contains-sort store m.sources,
      ))
]

enabled-deactivate_monitoring :
    (m : Mission) (now : ℕ) (ms : List Mission) (f : ℕ → ℕ → Option ItemStore) (item store : ℕ)
    → enabled (deactivate_monitoring m now ms f) item store ≡ (
        enabled f item store
        && not (
            opt_eq m.item_link (some item)
            && contains store m.sources
            && not (other_active_mission_needs_store item store m.id ms)))
unfolding deactivate_monitoring
enabled-deactivate_monitoring m now ms f item store = elim (Option-cases m.item_link) [
  | inl e ↦ rw e (ground arith)
  | inr (i, e) ↦ rw e (
      ground (
        arith,
        enabled-deactivate i m.id now ms (sort_by leb m.sources) f item store,
        contains-sort store m.sources,
      ))
]

-- The row for an item and a store after the transition, from the demand of the others.
monitoring_after-demand :
    (next : MissionStatus) (db : Db) (m : Mission) (now item store : ℕ) (others : Bool)
    → other_active_mission_needs_store item store m.id db.missions ≡ others
    → enabled db.item_store item store ≡ (needs item store m || others)
    → enabled (monitoring_after next db m now) item store
      ≡ ((opt_eq m.item_link (some item) && is_active next && contains store m.sources) || others)
unfolding monitoring_after needs
monitoring_after-demand next db m now item store others o h = elim (Bool-cases (is_active next)) [
  | inl a ↦ rw a (ground (arith, enabled-activate_monitoring m now db.item_store item store))
  | inr a ↦ elim (Bool-cases (is_active m.status)) [
    | inl b ↦
        rw (a, b)
          (ground (arith, enabled-deactivate_monitoring m now db.missions db.item_store item store))
    | inr b ↦ rw (a, b) (ground arith)
  ]
]

module _ (c : Context) (q : Request) (db db' : Db) (s : Succeeds c q db db')
    (d : MeetsDemand db) where
  abbrev write : Mission → Mission
  write = moved s.next q.command s.now

  unique_after : HasUniqueIds (replace_mission q.mission_id write db.missions)
  unique_after =
      replace-HasUniqueIds q.mission_id write (moved-id s.next q.command s.now) db.missions d.unique

  abbrev others : ℕ → ℕ → Bool
  others item store = any_of (λ m. not (m.id == q.mission_id) && needs item store m) db.missions

  others_lem :
      (item store : ℕ)
      → other_active_mission_needs_store item store s.mission.id db.missions ≡ others item store
  unfolding other_active_mission_needs_store
  others_lem item store =
      ap (λ n. any_of (λ m. not (m.id == n) && needs item store m) db.missions)
        (find_mission-id q.mission_id write db.missions s.found)

  demand_after :
      (item store : ℕ) → enabled db'.item_store item store ≡ any_of (needs item store) db'.missions
  demand_after item store =
      let need = needs item store in
      let same_id = moved-id s.next q.command s.now in
      cc (
        ap (λ f. enabled f item store) s.stores,
        monitoring_after-demand s.next db s.mission s.now item store (others item store)
            (others_lem item store)
            (d.demand item store ∙ any-split q.mission_id need db.missions d.unique s.found),
        ap (any_of need) s.rows,
        any-split q.mission_id need (replace_mission q.mission_id write db.missions) unique_after
            (find-replace q.mission_id write same_id db.missions s.found),
        any-others-replace q.mission_id write same_id need db.missions,
        moved-needs s.next q.command s.now item store s.mission,
      )

  Succeeds-MeetsDemand : MeetsDemand db'
  Succeeds-MeetsDemand = record {
    unique = subst HasUniqueIds (sym s.rows) unique_after;
    demand = demand_after;
  }

-- If identifiers of missions are unique, and collection for an item at a store is enabled
-- exactly where an active mission linked to the item needs the store, then both hold after any
-- transition that succeeds, whatever its command.
pub transition-MeetsDemand :
    (c : Context) (q : Request) (db : Db) (at : Datetime) {t : Transition} {db' : Db}
    → MeetsDemand db
    → transition_mission c q db at ≡ ok t db'
    → MeetsDemand db'
transition-MeetsDemand c q db at {db' = db'} d e =
    Succeeds-MeetsDemand c q db db' (transition-Succeeds c q db at e) d

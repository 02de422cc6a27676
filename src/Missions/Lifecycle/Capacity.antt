-- ===== src/Missions/Lifecycle/Capacity.antt =====
-- The quotas on active missions and store slots hold through every transition.
use mathlib.Core.Path.{subst}
use aishopping_agent.Common.Time.{Datetime}
use aishopping_agent.Quotas.Limits.{check_passed}
use aishopping_agent.Missions.Lookup.{count-replace}
use aishopping_agent.Missions.Lifecycle.Rows.{Succeeds, transition-Succeeds}
use aishopping_agent.Common.{
  refl, ◌&&◌, inr, inl, Bool-cases, find_first, ℕ, ◌+◌, ◌≤◌, ◌≡◌, true, false, none, some, List, [],
  ◌∷◌, ◌==◌, arith, length, count_of, if◌then◌else◌, ==→eq, sym,
}
use aishopping_agent.Missions.Data.{
  MissionStatus, MissionCommand, activate, resume, Mission, is_active, find_mission,
  replace_mission,
}
use aishopping_agent.Missions.Lifecycle.{Db, next_status, ok, Transition}
use aishopping_agent.Missions.Lifecycle.Step.{
  Request, Context, condition_refused, moved, transition_mission,
}
use aishopping_agent.Quotas.{
  resolve_quota_limits, get_quota_usage, is_active_of, slots_of, check_mission_activation_quota,
  QuotaLimits,
}

-- Nobody has more active missions, or more store slots in use, than the limits allow.
pub record WithinQuota (c : Context) (db : Db) : Type 0 where
  pub missions_fit :
      (user : ℕ)
      → count_of (is_active_of user) db.missions
        ≤ (resolve_quota_limits (c.owner user) c.settings).max_active_missions
  pub slots_fit :
      (user : ℕ)
      → slots_of user db.missions ≤ (resolve_quota_limits (c.owner user) c.settings).max_store_slots

abbrev slots_if : ℕ → Mission → ℕ
slots_if user m = if is_active_of user m then length m.sources else 0

slots-replace :
    (id user : ℕ) (f : Mission → Mission) (ms : List Mission) {m : Mission}
    → find_mission id ms ≡ some m
    → slots_of user (replace_mission id f ms) + slots_if user m
      ≡ slots_of user ms + slots_if user (f m)
unfolding find_mission find_first replace_mission slots_of
slots-replace id user f [] e = cc
slots-replace id user f (x ∷ ms) {m} e = elim (Bool-cases (x.id == id)) [
  | inl y ↦ ground arith
  | inr n ↦ ground (arith, slots-replace id user f ms {m = m})
]

-- Only `activate` and `resume` lead to an active mission, and both pass the quota check.
activation_passes :
    (command : MissionCommand) (next : MissionStatus) (c : Context) (db : Db) (m : Mission)
    (now : ℕ)
    → next_status m.status command ≡ some next
    → is_active next ≡ true
    → condition_refused command c db m now ≡ none
    → (is_active m.status ≡ false)
      × (check_mission_activation_quota
            (get_quota_usage db.missions db.receipts m.user_id now)
            (resolve_quota_limits (c.owner m.user_id) c.settings)
            (length m.sources)
          ≡ none)
unfolding next_status condition_refused
activation_passes activate next c db m now n a p = ground arith
activation_passes resume next c db m now n a p = ground arith
activation_passes _ next c db m now n a p = ground arith

module _ (c : Context) (q : Request) (db db' : Db) (s : Succeeds c q db db')
    (w : WithinQuota c db) where
  abbrev write : Mission → Mission
  write = moved s.next q.command s.now

  abbrev limits : ℕ → QuotaLimits
  limits user = resolve_quota_limits (c.owner user) c.settings

  write-active :
      (user : ℕ) (m : Mission)
      → is_active_of user (write m) ≡ (m.user_id == user && is_active s.next)
  unfolding moved
  write-active user m = refl

  write-slots :
      (user : ℕ) (m : Mission)
      → slots_if user (write m)
        ≡ (if m.user_id == user && is_active s.next then length m.sources else 0)
  unfolding moved
  write-slots user m = refl

  -- The check that let the mission in, in terms of the rows that were counted.
  check_left_room :
      is_active s.next ≡ true
      → (is_active s.mission.status ≡ false)
        × (count_of (is_active_of s.mission.user_id) db.missions + 1
            ≤ (limits s.mission.user_id).max_active_missions)
        × (slots_of s.mission.user_id db.missions + length s.mission.sources
            ≤ (limits s.mission.user_id).max_store_slots)
  check_left_room a =
      let (off, passed) =
        activation_passes q.command s.next c db s.mission s.now s.allowed a s.passed in
      let room = check_passed _ _ _ passed in
      (off, unfold get_quota_usage in room.0, unfold get_quota_usage in room.1)

  room_for :
      (user : ℕ)
      → is_active s.next ≡ true
      → (s.mission.user_id == user) ≡ true
      → (count_of (is_active_of user) db.missions + 1 ≤ (limits user).max_active_missions)
        × (slots_of user db.missions + length s.mission.sources ≤ (limits user).max_store_slots)
  room_for user a e =
      let room = check_left_room a in
      subst
        (λ u.
          (count_of (is_active_of u) db.missions + 1 ≤ (limits u).max_active_missions)
          × (slots_of u db.missions + length s.mission.sources ≤ (limits u).max_store_slots))
        (==→eq s.mission.user_id user e) (room.1, room.2)

  missions_after :
      (user : ℕ)
      → count_of (is_active_of user) (replace_mission q.mission_id write db.missions)
        ≤ (limits user).max_active_missions
  missions_after user = ground (
    arith,
    count-replace q.mission_id write (is_active_of user) db.missions s.found,
    write-active user s.mission,
    room_for user,
    check_left_room,
    w.missions_fit user,
  )

  slots_after :
      (user : ℕ)
      → slots_of user (replace_mission q.mission_id write db.missions)
        ≤ (limits user).max_store_slots
  slots_after user = ground (
    arith,
    slots-replace q.mission_id user write db.missions s.found,
    write-slots user s.mission,
    room_for user,
    check_left_room,
    w.slots_fit user,
  )

-- If no user has more active missions, or more store slots in use, than the limits say, then
-- nobody has after a transition that succeeds, whatever its command and whoever owns the
-- mission.
pub transition-WithinQuota :
    (c : Context) (q : Request) (db : Db) (at : Datetime) {t : Transition} {db' : Db}
    → WithinQuota c db
    → transition_mission c q db at ≡ ok t db'
    → WithinQuota c db'
transition-WithinQuota c q db at {db' = db'} w e =
    let s = transition-Succeeds c q db at e in
    record {
      missions_fit = λ user.
          subst
            (λ ms.
              count_of (is_active_of user) ms
              ≤ (resolve_quota_limits (c.owner user) c.settings).max_active_missions)
            (sym s.rows) (missions_after c q db db' s w user);
      slots_fit = λ user.
          subst
            (λ ms.
              slots_of user ms ≤ (resolve_quota_limits (c.owner user) c.settings).max_store_slots)
            (sym s.rows) (slots_after c q db db' s w user);
    }

-- ===== src/Missions/Lifecycle/Versions.antt =====
-- Versions serialise the transitions of a mission, and a finished mission stays finished.
use aishopping_agent.Common.{◌∙◌, ap, refl, ℕ, ◌+◌, ◌≡◌, ◌≢◌, ◌⊎◌, none, some, arith}
use aishopping_agent.Common.Time.{Datetime, aware}
use aishopping_agent.Missions.Data.{
  MissionStatus, completed, cancelled, expired, MissionCommand, Mission, find_mission,
}
use aishopping_agent.Missions.Lookup.{find-replace}
use aishopping_agent.Missions.Lifecycle.{Transition, Db, version_conflict, ok, err, next_status}
use aishopping_agent.Missions.Lifecycle.Step.{
  Request, Context, moved, invalid_argument, checked, on_time, on_mission, transition_mission,
}
use aishopping_agent.Missions.Lifecycle.Rows.{transition-Succeeds}

abbrev pub IsFinished : MissionStatus → Type 0
IsFinished s = (s ≡ completed) ⊎ ((s ≡ cancelled) ⊎ (s ≡ expired))

next_status_finished :
    (s : MissionStatus) (k : MissionCommand) → IsFinished s → next_status s k ≡ none
unfolding next_status
next_status_finished completed k f = refl
next_status_finished cancelled k f = refl
next_status_finished expired k f = refl
next_status_finished s k f = ground arith

-- No transition of a completed, cancelled or expired mission succeeds.
pub finished_refuses :
    (c : Context) (q : Request) (db : Db) (at : Datetime) {m : Mission} {t : Transition} {db' : Db}
    → find_mission q.mission_id db.missions ≡ some m
    → IsFinished m.status
    → transition_mission c q db at ≢ ok t db'
finished_refuses c q db at {m = m} f fin e =
    let s = transition-Succeeds c q db at e in
    ground (arith, s.allowed, s.found, next_status_finished m.status q.command fin)

moved-id :
    (next : MissionStatus) (command : MissionCommand) (now : ℕ) (m : Mission)
    → (moved next command now m).id ≡ m.id
unfolding moved
moved-id next command now m = refl

moved-version :
    (next : MissionStatus) (command : MissionCommand) (now : ℕ) (m : Mission)
    → (moved next command now m).state_version ≡ m.state_version + 1
unfolding moved
moved-version next command now m = refl

refused_after :
    (c : Context) (q : Request) (db : Db) (now : ℕ) (m : Mission)
    → invalid_argument c q ≡ none
    → find_mission q.mission_id db.missions ≡ some m
    → m.state_version ≢ q.expected_state_version
    → transition_mission c q db (aware now) ≡ err version_conflict
unfolding transition_mission checked on_time on_mission
refused_after c q db now m valid found other = rw (valid, found) (ground arith)

-- After a transition that succeeds, the mission has the version after the expected one, and a
-- request for it that still expects the old version is refused as a conflict, at any time and
-- whatever its command, provided its own arguments are valid.
pub transition-version :
    (c : Context) (q q' : Request) (db : Db) (at : Datetime) (later : ℕ) {t : Transition} {db' : Db}
    → transition_mission c q db at ≡ ok t db'
    → q'.mission_id ≡ q.mission_id
    → q'.expected_state_version ≡ q.expected_state_version
    → invalid_argument c q' ≡ none
    → ((m : Mission) × (find_mission q.mission_id db'.missions ≡ some m)
        × (m.state_version ≡ q.expected_state_version + 1))
      × (transition_mission c q' db' (aware later) ≡ err version_conflict)
transition-version c q q' db at later {db' = db'} e same version valid =
    let s = transition-Succeeds c q db at e in
    let m' : Mission = moved s.next q.command s.now s.mission in
    let here : find_mission q.mission_id db'.missions ≡ some m' =
      ap (find_mission q.mission_id) s.rows
      ∙ find-replace q.mission_id (moved s.next q.command s.now) (moved-id s.next q.command s.now)
          db.missions s.found in
    let ahead : m'.state_version ≡ q.expected_state_version + 1 =
      moved-version s.next q.command s.now s.mission ∙ ap (λ n. n + 1) s.version in
    ((m', here, ahead), refused_after c q' db' later m' valid (rw same here) (omega arith))

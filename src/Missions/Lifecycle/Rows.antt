-- ===== src/Missions/Lifecycle/Rows.antt =====
-- What a successful transition read, passed and wrote, and how the rows change.
use aishopping_agent.Common.{
  sym, inr, ==→eq, inl, ◌==◌, Bool-cases, refl, ap, ℕ, ◌≡◌, Option, none, some, List, [],
}
use aishopping_agent.Common.Time.{Datetime, aware, naive}
use aishopping_agent.Missions.Data.{MissionStatus, Mission, find_mission, replace_mission}
use aishopping_agent.Quotas.{SearchReceipt}
use aishopping_agent.Missions.Lifecycle.{
  ItemStore, Transition, Db, TransitionError, Result, ok, err, next_status,
}
use aishopping_agent.Missions.Lifecycle.Step.{
  Request, Context, checked, apply, on_status, on_mission, on_time, invalid_argument,
  condition_refused, moved, monitoring_after, transition_mission,
}

module _ (c : Context) (q : Request) (db : Db) where
  pub record Succeeds (db' : Db) : Type 0 where
    pub mission : Mission
    pub next : MissionStatus
    pub now : ℕ
    pub found : find_mission q.mission_id db.missions ≡ some mission
    pub version : mission.state_version ≡ q.expected_state_version
    pub allowed : next_status mission.status q.command ≡ some next
    pub passed : condition_refused q.command c db mission now ≡ none
    pub rows : db'.missions ≡ replace_mission q.mission_id (moved next q.command now) db.missions
    pub stores : db'.item_store ≡ monitoring_after next db mission now
    pub receipts_kept : db'.receipts ≡ db.receipts

  checked-ok :
      (o : Option TransitionError) (r : Result) {t : Transition} {db' : Db}
      → checked o r ≡ ok t db'
      → (o ≡ none) × (r ≡ ok t db')
  unfolding checked
  checked-ok none r e = (refl, e)
  checked-ok (some x) r e = cc

  apply-ok :
      (m : Mission) (next : MissionStatus) (now : ℕ) {t : Transition} {db' : Db}
      → apply q db m next now ≡ ok t db'
      → (db'.missions ≡ replace_mission q.mission_id (moved next q.command now) db.missions)
        × (db'.item_store ≡ monitoring_after next db m now)
        × (db'.receipts ≡ db.receipts)
  unfolding apply
  apply-ok m next now e =
      (sym (ap stores_missions e), sym (ap stores_item e), sym (ap stores_receipts e))
    where
      stores_missions : Result → List Mission
      stores_missions (ok t d) = d.missions
      stores_missions (err x) = []

      stores_item : Result → ℕ → ℕ → Option ItemStore
      stores_item (ok t d) = d.item_store
      stores_item (err x) = db.item_store

      stores_receipts : Result → List SearchReceipt
      stores_receipts (ok t d) = d.receipts
      stores_receipts (err x) = db.receipts

  status-Succeeds :
      (m : Mission) (now : ℕ) (o : Option MissionStatus) {t : Transition} {db' : Db}
      → find_mission q.mission_id db.missions ≡ some m
      → m.state_version ≡ q.expected_state_version
      → next_status m.status q.command ≡ o
      → on_status c q db m now o ≡ ok t db'
      → Succeeds db'
  unfolding on_status
  status-Succeeds m now none f v n e = cc
  status-Succeeds m now (some next) f v n e =
      let (p, a) = checked-ok (condition_refused q.command c db m now) (apply q db m next now) e in
      let (r, s, k) = apply-ok m next now a in
      record {
        mission = m;
        next = next;
        now = now;
        found = f;
        version = v;
        allowed = n;
        passed = p;
        rows = r;
        stores = s;
        receipts_kept = k;
      }

  mission-Succeeds :
      (now : ℕ) (o : Option Mission) {t : Transition} {db' : Db}
      → find_mission q.mission_id db.missions ≡ o
      → on_mission c q db now o ≡ ok t db'
      → Succeeds db'
  unfolding on_mission
  mission-Succeeds now none f e = cc
  mission-Succeeds now (some m) f e =
      elim (Bool-cases (m.state_version == q.expected_state_version)) [
        | inl same ↦
            status-Succeeds m now _ f (==→eq m.state_version q.expected_state_version same) refl
              (rw same at e)
        | inr other ↦ absurd (err-ne-ok (rw other at e))
      ]
    where
      err-ne-ok : {x : TransitionError} {t : Transition} {d : Db} → err x ≡ ok t d → ⊥
      err-ne-ok e = cc

  -- Inversion of a transition that succeeds.
  pub transition-Succeeds :
      (at : Datetime) {t : Transition} {db' : Db}
      → transition_mission c q db at ≡ ok t db'
      → Succeeds db'
  unfolding transition_mission
  transition-Succeeds (naive n) e =
      let (p, a) = checked-ok (invalid_argument c q) (on_time c q db none) e in unfold on_time in cc
  transition-Succeeds (aware n) e =
      let (p, a) = checked-ok (invalid_argument c q) (on_time c q db (some n)) e in
      mission-Succeeds n _ refl (unfold on_time in a)

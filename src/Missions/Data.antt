-- ===== src/Missions/Data.antt =====
-- backend/app/missions/models.py: the rows that the life cycle and the quotas read and write. A
-- mission stands with what its foreign keys bring: whether it has criteria, the stores that it
-- selects, the monitoring item that it is linked to, and its schedule's switch. Identifiers are
-- numbers in the order in which the sources sort them.
use aishopping_agent.Common.{
  ℕ, Bool, true, false, Option, List, [], ◌∷◌, ◌==◌, if◌then◌else◌, find_first, any_of,
}

pub data MissionStatus : Type 0 where
  draft active paused completed cancelled expired : MissionStatus

pub data MissionCommand : Type 0 where
  activate pause resume complete cancel expire : MissionCommand

pub record ScheduleSwitch : Type 0 where
  pub is_enabled : Bool
  pub updated_at : ℕ

pub record Mission : Type 0 where
  pub id : ℕ
  pub user_id : ℕ
  pub status : MissionStatus
  pub expires_at : Option ℕ
  pub state_version : ℕ
  pub updated_at : ℕ
  pub has_criteria : Bool
  pub sources : List ℕ
  pub item_link : Option ℕ
  pub schedule : Option ScheduleSwitch

abbrev pub is_active : MissionStatus → Bool
is_active active = true
is_active _ = false

-- `SELECT … WHERE missions.id = id`
unfoldable pub find_mission : ℕ → List Mission → Option Mission
find_mission id ms = find_first (λ m. m.id == id) ms

-- The write of the row that `find_mission` reads.
unfoldable pub replace_mission : ℕ → (Mission → Mission) → List Mission → List Mission
replace_mission id f [] = []
replace_mission id f (m ∷ ms) =
    let rest = replace_mission id f ms in if m.id == id then f m ∷ ms else m ∷ rest

unfoldable pub contains : ℕ → List ℕ → Bool
contains s xs = any_of (λ x. x == s) xs

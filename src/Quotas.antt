-- ===== src/Quotas.antt =====
-- backend/app/quotas/service.py: capacity per user. The counting queries run over the mission rows
-- and the search receipts; an instant is counted from a midnight UTC. The asynchronous twins of
-- these functions differ by `await` only. The texts of the messages are not modelled.
pub mod Limits
pub mod Searches
mod Tests
use aishopping_agent.Common.{
  ℕ, ◌+◌, ◌-◌, ◌%◌, Bool, true, false, ◌&&◌, Option, none, some, List, [], ◌∷◌, ltb, leb, ◌==◌,
  if◌then◌else◌, length, count_of,
}
use aishopping_agent.Missions.Data.{Mission, is_active}

pub data UserRole : Type 0 where
  user admin dev : UserRole

pub record User : Type 0 where
  pub id : ℕ
  pub role : UserRole
  pub max_active_missions_override : Option ℕ
  pub max_store_slots_override : Option ℕ
  pub max_daily_searches_override : Option ℕ

pub record Settings : Type 0 where
  pub default_max_active_missions : ℕ
  pub default_max_active_missions_admin_dev : Option ℕ
  pub default_max_store_slots : ℕ
  pub default_max_store_slots_admin_dev : Option ℕ
  pub default_max_daily_searches : ℕ

pub data QuotaKind : Type 0 where
  active_missions store_slots daily_searches : QuotaKind

pub data Remedy : Type 0 where
  pause_mission cancel_mission manage_missions reduce_mission_stores wait_for_daily_reset : Remedy

pub record QuotaExceeded : Type 0 where
  pub kind : QuotaKind
  pub limit : ℕ
  pub current : ℕ
  pub actions : List Remedy

pub record QuotaLimits : Type 0 where
  pub max_active_missions : ℕ
  pub max_store_slots : ℕ
  pub max_daily_searches : ℕ

pub record QuotaUsage : Type 0 where
  pub active_missions_used : ℕ
  pub store_slots_used : ℕ
  pub daily_searches_used : ℕ

-- `a if a is not None else d`
abbrev pub or_default : Option ℕ → ℕ → ℕ
or_default none d = d
or_default (some a) d = a

default_for_role : UserRole → Option ℕ → ℕ → ℕ
default_for_role user admin_dev d = d
default_for_role _ admin_dev d = or_default admin_dev d

unfoldable pub default_max_active_missions_for_role : User → Settings → ℕ
unfolding default_for_role
default_max_active_missions_for_role u s =
    default_for_role u.role s.default_max_active_missions_admin_dev s.default_max_active_missions

unfoldable pub default_max_store_slots_for_role : User → Settings → ℕ
unfolding default_for_role
default_max_store_slots_for_role u s =
    default_for_role u.role s.default_max_store_slots_admin_dev s.default_max_store_slots

unfoldable pub resolve_quota_limits : User → Settings → QuotaLimits
unfolding default_max_active_missions_for_role default_max_store_slots_for_role
resolve_quota_limits u s = record {
  max_active_missions =
      or_default u.max_active_missions_override (default_max_active_missions_for_role u s);
  max_store_slots = or_default u.max_store_slots_override (default_max_store_slots_for_role u s);
  max_daily_searches = or_default u.max_daily_searches_override s.default_max_daily_searches;
}

abbrev pub day : ℕ
day = 86400000000

unfoldable pub day_start_utc : ℕ → ℕ
day_start_utc now = now - now % day

unfoldable pub next_daily_reset_at : ℕ → ℕ
unfolding day_start_utc
next_daily_reset_at now = day_start_utc now + day

pub record SearchReceipt : Type 0 where
  pub user_id : ℕ
  pub query_text : List ℕ
  pub created_at : ℕ

abbrev pub is_active_of : ℕ → Mission → Bool
is_active_of user_id m = m.user_id == user_id && is_active m.status

-- the rows of `mission_sources` joined to a user's active missions
unfoldable pub slots_of : ℕ → List Mission → ℕ
slots_of user_id [] = 0
slots_of user_id (m ∷ ms) =
    let rest = slots_of user_id ms in
    if is_active_of user_id m then length m.sources + rest else rest

abbrev pub is_today : ℕ → ℕ → SearchReceipt → Bool
is_today user_id now r = r.user_id == user_id && leb (day_start_utc now) r.created_at

unfoldable pub get_quota_usage : List Mission → List SearchReceipt → ℕ → ℕ → QuotaUsage
get_quota_usage ms rs user_id now = record {
  active_missions_used = count_of (is_active_of user_id) ms;
  store_slots_used = slots_of user_id ms;
  daily_searches_used = count_of (is_today user_id now) rs;
}

active_missions_error : QuotaUsage → QuotaLimits → QuotaExceeded
active_missions_error usage limits = record {
  kind = active_missions;
  limit = limits.max_active_missions;
  current = usage.active_missions_used;
  actions = pause_mission ∷ cancel_mission ∷ manage_missions ∷ [];
}

store_slots_error : QuotaUsage → QuotaLimits → QuotaExceeded
store_slots_error usage limits = record {
  kind = store_slots;
  limit = limits.max_store_slots;
  current = usage.store_slots_used;
  actions = reduce_mission_stores ∷ pause_mission ∷ cancel_mission ∷ manage_missions ∷ [];
}

daily_searches_error : QuotaUsage → QuotaLimits → QuotaExceeded
daily_searches_error usage limits = record {
  kind = daily_searches;
  limit = limits.max_daily_searches;
  current = usage.daily_searches_used;
  actions = wait_for_daily_reset ∷ [];
}

-- `check_mission_activation_quota`: `none` where it returns, else the error that it raises. The
-- last argument is the number of stores of the mission to be activated.
unfoldable pub check_mission_activation_quota : QuotaUsage → QuotaLimits → ℕ → Option QuotaExceeded
unfolding active_missions_error store_slots_error
check_mission_activation_quota usage limits this_mission_sources =
    if ltb limits.max_active_missions (usage.active_missions_used + 1)
    then some (active_missions_error usage limits)
    else if ltb limits.max_store_slots (usage.store_slots_used + this_mission_sources)
    then some (store_slots_error usage limits)
    else none

-- A search is refused, or reserved by a new receipt.
pub data Reservation : Type 0 where
  reserved : List SearchReceipt → Reservation
  refused : QuotaExceeded → Reservation

-- The row is stamped by `utc_now()` when it is inserted, not by the caller's `now`. The count and the
-- insertion take no lock: `rs` is what the count reads, which others may have added to by then.
unfoldable pub check_and_reserve_search_quota :
    List Mission → List SearchReceipt → User → Settings → ℕ → ℕ → List ℕ → Reservation
unfolding get_quota_usage resolve_quota_limits daily_searches_error
check_and_reserve_search_quota ms rs u s now inserted_at query_text =
    let limits = resolve_quota_limits u s in
    let usage = get_quota_usage ms rs u.id now in
    if ltb limits.max_daily_searches (usage.daily_searches_used + 1)
    then refused (daily_searches_error usage limits)
    else reserved
        (record { user_id = u.id; query_text = query_text; created_at = inserted_at } ∷ rs)

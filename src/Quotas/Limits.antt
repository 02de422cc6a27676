-- ===== src/Quotas/Limits.antt =====
-- When a mission may be activated, and what the refusal says.
use aishopping_agent.Common.{refl, ◌≢◌, ℕ, ◌+◌, ◌≤◌, ◌<◌, ◌≡◌, none, some, arith}
use aishopping_agent.Quotas.{
  store_slots_error, active_missions_error, User, user, Settings, QuotaLimits, QuotaUsage,
  QuotaExceeded, active_missions, store_slots, resolve_quota_limits, check_mission_activation_quota,
  or_default,
}

-- An activation is refused exactly if it would exceed a limit: for missions, whatever the stores
-- are, with the limit and the number in use; for stores, if the missions still fit. Otherwise it
-- passes.
pub check_mission_activation_quota_lem :
    (usage : QuotaUsage) (limits : QuotaLimits) (stores : ℕ)
    → (usage.active_missions_used + 1 ≤ limits.max_active_missions
        → usage.store_slots_used + stores ≤ limits.max_store_slots
        → check_mission_activation_quota usage limits stores ≡ none)
      × (limits.max_active_missions < usage.active_missions_used + 1
          → (e : QuotaExceeded) × (check_mission_activation_quota usage limits stores ≡ some e)
            × (e.kind ≡ active_missions)
            × (e.limit ≡ limits.max_active_missions)
            × (e.current ≡ usage.active_missions_used))
      × (usage.active_missions_used + 1 ≤ limits.max_active_missions
          → limits.max_store_slots < usage.store_slots_used + stores
          → (e : QuotaExceeded) × (check_mission_activation_quota usage limits stores ≡ some e)
            × (e.kind ≡ store_slots)
            × (e.limit ≡ limits.max_store_slots)
            × (e.current ≡ usage.store_slots_used))
unfolding check_mission_activation_quota
check_mission_activation_quota_lem usage limits stores = (
  λ a b. ground arith,
  λ a. (active_missions_error usage limits, ground arith, refl, refl, refl),
  λ a b. (store_slots_error usage limits, ground arith, refl, refl, refl),
)

-- What a passed check means for the limits, for the life cycle.
pub check_passed :
    (usage : QuotaUsage) (limits : QuotaLimits) (stores : ℕ)
    → check_mission_activation_quota usage limits stores ≡ none
    → (usage.active_missions_used + 1 ≤ limits.max_active_missions)
      × (usage.store_slots_used + stores ≤ limits.max_store_slots)
unfolding check_mission_activation_quota
check_passed usage limits stores h = ground arith

-- Limits by role: an override wins for everybody; without one a user has the plain default, and an
-- administrator or developer the value of their own where it is configured, else the plain one.
-- The limit on searches does not depend on the role.
pub resolve_quota_limits_role :
    (u : User) (s : Settings)
    → ((n : ℕ)
        → u.max_active_missions_override ≡ some n
        → (resolve_quota_limits u s).max_active_missions ≡ n)
      × (u.max_active_missions_override ≡ none
          → u.role ≡ user
          → (resolve_quota_limits u s).max_active_missions ≡ s.default_max_active_missions)
      × (u.max_active_missions_override ≡ none
          → u.role ≢ user
          → (resolve_quota_limits u s).max_active_missions
            ≡ or_default s.default_max_active_missions_admin_dev s.default_max_active_missions)
      × (u.max_store_slots_override ≡ none
          → u.role ≢ user
          → (resolve_quota_limits u s).max_store_slots
            ≡ or_default s.default_max_store_slots_admin_dev s.default_max_store_slots)
      × ((resolve_quota_limits u s).max_daily_searches
          ≡ or_default u.max_daily_searches_override s.default_max_daily_searches)
unfolding resolve_quota_limits
resolve_quota_limits_role u s =
    (λ n e. ground arith, λ e r. ground arith, λ e r. ground arith, λ e r. ground arith, refl)

-- ===== src/Quotas/Tests.antt =====
-- A user with a quota of two searches.
use aishopping_agent.Common.{
  refl, count_of, arith, All, ◌≤◌, ◌<◌, ◌+◌, ◌≡◌, List, [], ◌∷◌, none, some,
}
use aishopping_agent.Quotas.{
  User, UserRole, Settings, QuotaExceeded, QuotaLimits, QuotaUsage, SearchReceipt, reserved,
  refused, resolve_quota_limits, day_start_utc, get_quota_usage, check_and_reserve_search_quota,
  daily_searches,
}
use aishopping_agent.Quotas.Searches.{
  after_searches_bounded, after_searches, Search, check_and_reserve_search_quota_lem,
}

abbrev usage : QuotaUsage
usage = record { active_missions_used = 1; store_slots_used = 3; daily_searches_used = 0 }

abbrev limits : QuotaLimits
limits = record { max_active_missions = 2; max_store_slots = 4; max_daily_searches = 2 }

abbrev buyer : User
buyer = record {
  id = 5;
  role = UserRole.user;
  max_active_missions_override = none;
  max_store_slots_override = none;
  max_daily_searches_override = some 2;
}

abbrev settings : Settings
settings = record {
  default_max_active_missions = 2;
  default_max_active_missions_admin_dev = none;
  default_max_store_slots = 4;
  default_max_store_slots_admin_dev = some 40;
  default_max_daily_searches = 30;
}

abbrev receipts : List SearchReceipt
receipts = record { user_id = 5; query_text = []; created_at = 90000000000 } ∷ []

check_and_reserve_search_quota_lem_example :
    ((get_quota_usage [] receipts 5 91000000000).daily_searches_used < 2
      → day_start_utc 91000000000 ≤ 91000000001
      → (rs' : List SearchReceipt) × (check_and_reserve_search_quota [] receipts buyer settings
            91000000000 91000000001 []
          ≡ reserved rs')
        × ((get_quota_usage [] rs' 5 91000000000).daily_searches_used
            ≡ (get_quota_usage [] receipts 5 91000000000).daily_searches_used + 1))
    × (2 ≤ (get_quota_usage [] receipts 5 91000000000).daily_searches_used
        → (e : QuotaExceeded) × (check_and_reserve_search_quota [] receipts buyer settings
              91000000000 91000000001 []
            ≡ refused e)
          × (e.kind ≡ daily_searches)
          × (e.limit ≡ 2)
          × (e.current ≡ (get_quota_usage [] receipts 5 91000000000).daily_searches_used))
unfolding resolve_quota_limits
check_and_reserve_search_quota_lem_example =
    check_and_reserve_search_quota_lem [] receipts buyer settings 91000000000 91000000001 []

-- Two searches of which neither count sees the other's row.
abbrev searches : List Search
searches =
    record { now = 91000000000; inserted_at = 91000000001; text = []; unseen = 0 }
    ∷ record { now = 92000000000; inserted_at = 92000000001; text = []; unseen = 1 }
    ∷ []

searches_today :
    All (λ q. (day_start_utc q.now ≡ day_start_utc 90000000000) × (q.unseen ≤ 1)) searches
unfolding day_start_utc
searches_today = ((refl, omega arith), ((refl, omega arith), tt))

used_one :
    (get_quota_usage [] receipts 5 90000000000).daily_searches_used
    ≤ (resolve_quota_limits buyer settings).max_daily_searches + 1
unfolding get_quota_usage resolve_quota_limits count_of day_start_utc
used_one = omega arith

-- The limit is 2, and 3 searches count.
limit_passed :
    (get_quota_usage []
      (after_searches [] buyer settings receipts searches)
      5
      90000000000).daily_searches_used
    ≡ 3
unfolding after_searches get_quota_usage resolve_quota_limits count_of day_start_utc
    check_and_reserve_search_quota
limit_passed = refl

after_searches_bounded_example :
    (get_quota_usage []
      (after_searches [] buyer settings receipts searches)
      5
      90000000000).daily_searches_used
    ≤ (resolve_quota_limits buyer settings).max_daily_searches + 1
after_searches_bounded_example =
    after_searches_bounded [] receipts buyer settings 90000000000 1 searches searches_today used_one

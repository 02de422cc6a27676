-- ===== src/Quotas/Searches.antt =====
-- How far a user who searches often in a day can get, and the quota's day.
use aishopping_agent.Common.{
  ◌==◌, ap, ℕ, ◌+◌, ◌%◌, ◌≤◌, ◌<◌, ◌≡◌, refl, ◌&&◌, List, [], ◌∷◌, arith, leb, count_of, All, Bool,
  zero, suc,
}
use aishopping_agent.Missions.Data.{Mission}
use aishopping_agent.Quotas.{
  User, Settings, QuotaExceeded, daily_searches, wait_for_daily_reset, day, day_start_utc,
  next_daily_reset_at, SearchReceipt, is_today, get_quota_usage, resolve_quota_limits, reserved,
  refused, check_and_reserve_search_quota,
}

-- The quota's day: it starts at or before the instant, within one day, on a multiple of a day, and
-- ends at the next reset; every instant of the same day has the same start.
pub day_start_utc_lem :
    (now : ℕ)
    → (day_start_utc now ≤ now)
      × (now < next_daily_reset_at now)
      × (day_start_utc now % day ≡ 0)
      × ((t : ℕ)
          → day_start_utc now ≤ t
          → t < next_daily_reset_at now
          → day_start_utc t ≡ day_start_utc now)
unfolding day_start_utc next_daily_reset_at
day_start_utc_lem now = (omega arith, omega arith, omega arith, λ t a b. omega arith)

-- A search that fits in what is left of the day, and whose row is stamped no earlier than the
-- start of that day, is reserved and counts once; one that does not fit is refused with the
-- limit and the number of searches made.
pub check_and_reserve_search_quota_lem :
    (ms : List Mission) (rs : List SearchReceipt) (u : User) (s : Settings) (now inserted_at : ℕ)
    (text : List ℕ)
    → let limit = (resolve_quota_limits u s).max_daily_searches in
      let used = (get_quota_usage ms rs u.id now).daily_searches_used in
      (used < limit
        → day_start_utc now ≤ inserted_at
        → (rs' : List SearchReceipt) × (check_and_reserve_search_quota ms rs u s now inserted_at
              text
            ≡ reserved rs')
          × ((get_quota_usage ms rs' u.id now).daily_searches_used ≡ used + 1))
      × (limit ≤ used
          → (e : QuotaExceeded) × (check_and_reserve_search_quota ms rs u s now inserted_at text
              ≡ refused e)
            × (e.kind ≡ daily_searches)
            × (e.limit ≡ limit)
            × (e.current ≡ used))
unfolding check_and_reserve_search_quota count_of
check_and_reserve_search_quota_lem ms rs u s now inserted_at text = (
  λ h same_day. (
    record { user_id = u.id; query_text = text; created_at = inserted_at } ∷ rs,
    ground arith,
    ground arith,
  ),
  λ h. (
    record {
      kind = daily_searches;
      limit = (resolve_quota_limits u s).max_daily_searches;
      current = (get_quota_usage ms rs u.id now).daily_searches_used;
      actions = wait_for_daily_reset ∷ [];
    },
    ground arith,
    refl,
    refl,
    refl,
  ),
)

-- A search: the caller's instant, the instant of its row, its text; and how many of the latest rows
-- its count did not see, since others were inserted between its count and its own insertion.
pub record Search : Type 0 where
  pub now : ℕ
  pub inserted_at : ℕ
  pub text : List ℕ
  pub unseen : ℕ

-- The rows before the `n` latest ones.
abbrev pub earlier : ℕ → List SearchReceipt → List SearchReceipt
earlier zero rs = rs
earlier (suc n) [] = []
earlier (suc n) (r ∷ rs) = earlier n rs

-- The receipts after one search, and after a sequence of them: the check reads the rows as they were, the
-- insertion adds to the rows as they are.
unfoldable pub after_search :
    List Mission → User → Settings → List SearchReceipt → Search → List SearchReceipt
after_search ms u s rs q =
    elim (check_and_reserve_search_quota ms (earlier q.unseen rs) u s q.now q.inserted_at q.text) [
      | reserved rs' ↦
          record { user_id = u.id; query_text = q.text; created_at = q.inserted_at } ∷ rs
      | refused e ↦ rs
    ]

unfoldable pub after_searches :
    List Mission → User → Settings → List SearchReceipt → List Search → List SearchReceipt
unfolding after_search
after_searches ms u s rs [] = rs
after_searches ms u s rs (q ∷ qs) = after_searches ms u s (after_search ms u s rs q) qs

is_today_same :
    (user_id a b : ℕ) (rs : List SearchReceipt)
    → day_start_utc a ≡ day_start_utc b
    → count_of (is_today user_id a) rs ≡ count_of (is_today user_id b) rs
is_today_same user_id a b rs e =
    ap (λ d. count_of (λ r. r.user_id == user_id && leb d r.created_at) rs) e

count-earlier :
    (p : SearchReceipt → Bool) (n : ℕ) (rs : List SearchReceipt)
    → count_of p rs ≤ count_of p (earlier n rs) + n
unfolding count_of
count-earlier p zero rs = omega arith
count-earlier p (suc n) [] = omega arith
count-earlier p (suc n) (r ∷ rs) = ground (arith, count-earlier p n rs)

after_search_bounded :
    (ms : List Mission) (rs : List SearchReceipt) (u : User) (s : Settings) (today n : ℕ)
    (q : Search)
    → day_start_utc q.now ≡ day_start_utc today
    → q.unseen ≤ n
    → let limit = (resolve_quota_limits u s).max_daily_searches in
      (get_quota_usage ms rs u.id today).daily_searches_used ≤ limit + n
      → (get_quota_usage ms (after_search ms u s rs q) u.id today).daily_searches_used ≤ limit + n
unfolding after_search check_and_reserve_search_quota count_of
after_search_bounded ms rs u s today n q same seen h = ground (
  arith,
  is_today_same u.id q.now today (earlier q.unseen rs) same,
  count-earlier (is_today u.id today) q.unseen rs,
)

-- Whatever searches a user makes in one day, in any order and however their rows are stamped: where
-- no search's count misses more than `n` of the rows inserted before its own, the number that counts
-- for that day stays within the limit and `n` if it was within that before. The limit itself is
-- kept where no count misses a row; nothing in the code ensures that.
pub after_searches_bounded :
    (ms : List Mission) (rs : List SearchReceipt) (u : User) (s : Settings) (today n : ℕ)
    (qs : List Search)
    → All (λ q. (day_start_utc q.now ≡ day_start_utc today) × (q.unseen ≤ n)) qs
    → let limit = (resolve_quota_limits u s).max_daily_searches in
      (get_quota_usage ms rs u.id today).daily_searches_used ≤ limit + n
      → (get_quota_usage ms (after_searches ms u s rs qs) u.id today).daily_searches_used
        ≤ limit + n
unfolding after_searches
after_searches_bounded ms rs u s today n [] same h = h
after_searches_bounded ms rs u s today n (q ∷ qs) same h =
    after_searches_bounded ms (after_search ms u s rs q) u s today n qs same.1
      (after_search_bounded ms rs u s today n q same.0.0 same.0.1 h)

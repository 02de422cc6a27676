-- ===== src/Missions/Schedule/Due.antt =====
-- The schedules that a worker takes are due, in order, and as many as were asked for.
use aishopping_agent.Common.{
  ℕ, ◌≤◌, ◌≡◌, true, false, List, arith, take, keep, sort_by, Elem, Elem-keep, Ordered,
  IsSorted-Ordered, ◌<◌, ◌⊎◌, inl, inr, refl, Option, none, some, Elem-sort, sort-IsSorted,
  sort-Elem, keep-Elem,
}
use aishopping_agent.Common.Time.{aware}
use aishopping_agent.Missions.Schedule.{
  expires_after, ScheduleRow, is_due, due_order, find_due_schedules, ok,
}

due_order_total : (a b : ScheduleRow) → due_order a b ≡ false → due_order b a ≡ true
unfolding due_order
due_order_total a b h = ground arith

due_order_trans :
    (a b c : ScheduleRow) → due_order a b ≡ true → due_order b c ≡ true → due_order a c ≡ true
unfolding due_order
due_order_trans a b c h k = ground arith

-- What makes a schedule due at an instant: it is enabled and its next run has come, its mission is
-- active and does not end by then, and no other transaction holds the row.
pub record IsDue (now : ℕ) (r : ScheduleRow) : Type 0 where
  pub enabled : r.schedule.is_enabled ≡ true
  pub reached : r.schedule.next_run_at ≤ now
  pub active : r.mission_is_active ≡ true
  pub unexpired :
      (r.mission_expires_at ≡ none) ⊎ ((t : ℕ) × (r.mission_expires_at ≡ some t) × (now < t))
  pub unlocked : r.is_locked ≡ false

-- The earlier next run comes first, and of two at the same time the smaller identity.
abbrev pub RunsFirst : ScheduleRow → ScheduleRow → Type 0
RunsFirst a b =
    (a.schedule.next_run_at < b.schedule.next_run_at)
    ⊎ ((a.schedule.next_run_at ≡ b.schedule.next_run_at) × (a.schedule.id ≤ b.schedule.id))

due_order-RunsFirst : (a b : ScheduleRow) → due_order a b ≡ true → RunsFirst a b
unfolding due_order
due_order-RunsFirst a b h = ground arith

unexpired_of :
    (o : Option ℕ) (now : ℕ)
    → expires_after o now ≡ true
    → (o ≡ none) ⊎ ((t : ℕ) × (o ≡ some t) × (now < t))
unexpired_of none now h = inl refl
unexpired_of (some t) now h = inr (t, refl, ground arith)

unexpired_gives :
    (o : Option ℕ) (now : ℕ)
    → (o ≡ none) ⊎ ((t : ℕ) × (o ≡ some t) × (now < t))
    → expires_after o now ≡ true
unexpired_gives o now (inl e) = rw e refl
unexpired_gives o now (inr e) = rw e.1 (ground (arith, e.2))

is_due-IsDue : (now : ℕ) (r : ScheduleRow) → is_due now r ≡ true → IsDue now r
unfolding is_due
is_due-IsDue now r h = record {
  enabled = ground arith;
  reached = ground arith;
  active = ground arith;
  unexpired = unexpired_of r.mission_expires_at now (ground arith);
  unlocked = ground arith;
}

IsDue-is_due : (now : ℕ) (r : ScheduleRow) → IsDue now r → is_due now r ≡ true
unfolding is_due
IsDue-is_due now r d = ground (
  arith,
  d.enabled,
  d.reached,
  d.active,
  d.unlocked,
  unexpired_gives r.mission_expires_at now d.unexpired,
)

-- At an instant with a time zone and with a limit from 1 to 1000: what is returned is a prefix of
-- at most `limit` rows of a list that is ordered by next run and then by identity, and that holds
-- exactly the rows that are due: enabled, with the next run reached, of a mission that is active
-- and does not end by that instant, and not held by another transaction.
pub find_due_schedules_lem :
    (rows : List ScheduleRow) (now limit : ℕ)
    → 1 ≤ limit
    → limit ≤ 1000
    → (due : List ScheduleRow) × (find_due_schedules rows (aware now) limit ≡ ok (take limit due))
      × Ordered RunsFirst due
      × ((r : ScheduleRow) → Elem r due → Elem r rows × IsDue now r)
      × ((r : ScheduleRow) → Elem r rows → IsDue now r → Elem r due)
unfolding find_due_schedules
find_due_schedules_lem rows now limit low high = (
  sort_by due_order (keep (is_due now) rows),
  ground arith,
  IsSorted-Ordered due_order RunsFirst due_order-RunsFirst _
      (sort-IsSorted due_order due_order_total due_order_trans _),
  λ r m.
      let (row, due) = Elem-keep (is_due now) r rows (Elem-sort due_order r _ m) in
      (row, is_due-IsDue now r due),
  λ r m d. sort-Elem due_order r _ (keep-Elem (is_due now) r rows m (IsDue-is_due now r d)),
)

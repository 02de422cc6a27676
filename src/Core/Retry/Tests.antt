-- ===== src/Core/Retry/Tests.antt =====
-- An operation that fails twice and then succeeds.
use aishopping_agent.Common.Int.{pos}
use aishopping_agent.Common.{
  ℕ, ◌≤◌, ◌<◌, ◌≡◌, refl, arith, true, none, some, ◌==◌, if◌then◌else◌, length, suc, zero,
}
use aishopping_agent.Core.Retry.{
  RetryPolicy, is_accepted, Setting, Attempt, returned, raised, safe, potentially_non_idempotent,
  attempts_for, retry_operation,
}
use aishopping_agent.Core.Retry.Laws.{
  Runs, retry_operation-Runs, retry_operation-counts, retry_operation-PausesBounded, EndsAs,
  PausesBounded,
}

abbrev policy : RetryPolicy
policy = record { max_attempts = 4; base_delay = 100; max_delay = 300; retry_after_cap = 1000 }

third_time : ℕ → Attempt ℕ ℕ
third_time zero = raised 500
third_time (suc zero) = raised 503
third_time (suc (suc zero)) = raised 504
third_time _ = returned 7

abbrev setting : Setting ℕ ℕ
setting = record {
  policy = policy;
  operation = third_time;
  is_transient = λ e. true;
  retry_after = λ e. none;
  uniform = λ attempt ceiling. ceiling;
}

policy-is_accepted : is_accepted policy ≡ true
unfolding is_accepted
policy-is_accepted = refl

retry_operation-Runs_example :
    Runs setting (attempts_for setting safe) 1 (retry_operation setting safe)
retry_operation-Runs_example = retry_operation-Runs setting safe policy-is_accepted

retry_operation-counts_example :
    (0 < (retry_operation setting safe).calls)
    × ((retry_operation setting safe).calls ≤ 4)
    × (safe ≡ potentially_non_idempotent → (retry_operation setting safe).calls ≡ 1)
    × (suc (length (retry_operation setting safe).sleeps) ≡ (retry_operation setting safe).calls)
    × EndsAs setting
        (retry_operation setting safe).ending
        (third_time (retry_operation setting safe).calls)
retry_operation-counts_example = retry_operation-counts setting safe policy-is_accepted

-- An operation whose first error advises a pause longer than the cap.
abbrev advised_setting : Setting ℕ ℕ
advised_setting = record setting { retry_after = λ e. if e == 500 then some (pos 5000) else none }

retry_operation-PausesBounded_example :
    PausesBounded advised_setting
      (λ attempt ceiling. omega arith)
      1
      (retry_operation advised_setting safe).sleeps
retry_operation-PausesBounded_example =
    retry_operation-PausesBounded advised_setting (λ attempt ceiling. omega arith) safe
      policy-is_accepted

-- ===== src/Core/Retry.antt =====
-- backend/app/core/resilience.py: `RetryPolicy` and `retry_operation`. Times are in one small unit;
-- a server's `retry_after` may be negative, so it is an integer.
pub mod Laws
mod Tests
use aishopping_agent.Common.{
  ℕ, zero, suc, ◌+◌, ◌-◌, ◌*◌, ◌^◌, Bool, true, false, ◌&&◌, ◌||◌, not, Option, none, some, List,
  [], ◌∷◌, ltb, leb, if◌then◌else◌,
}
use aishopping_agent.Common.Int.{ℤ, pos_part}
use Prim.Native.Nat.{min}

pub data OperationSafety : Type 0 where
  safe potentially_non_idempotent : OperationSafety

pub record RetryPolicy : Type 0 where
  pub max_attempts : ℕ
  pub base_delay : ℕ
  pub max_delay : ℕ
  pub retry_after_cap : ℕ

-- `__post_init__` accepts the policy
unfoldable pub is_accepted : RetryPolicy → Bool
is_accepted p =
    leb 1 p.max_attempts
    && leb p.max_attempts 10
    && ltb 0 p.base_delay
    && leb p.base_delay p.max_delay
    && ltb 0 p.retry_after_cap

-- `random.uniform(0, ceiling)` is the parameter `uniform`, at the number of the attempt.
unfoldable pub delay : (ℕ → ℕ → ℕ) → RetryPolicy → ℕ → Option ℤ → ℕ
delay uniform p failed_attempt (some advised) = min (pos_part advised) p.retry_after_cap
delay uniform p failed_attempt none =
    uniform failed_attempt (min p.max_delay (p.base_delay * 2 ^ (failed_attempt - 1)))

-- How one call of `operation` ends.
pub data Attempt (E R : Type 0) : Type 0 where
  returned : R → Attempt E R
  raised : E → Attempt E R

-- What `retry_operation` leaves behind: how it ends, how often it called the operation, and the
-- pauses that it slept, in order. `exhausted` is its last line, `RuntimeError`.
pub data Ending (E R : Type 0) : Type 0 where
  returns : R → Ending E R
  raises : E → Ending E R
  exhausted : Ending E R

pub record Outcome (E R : Type 0) : Type 0 where
  pub ending : Ending E R
  pub calls : ℕ
  pub sleeps : List ℕ

-- What the loop is given: the operation and the callbacks, as functions of the attempt's number
-- and of the exception, and the generator behind `random.uniform`.
pub record Setting (E R : Type 0) : Type 0 where
  pub policy : RetryPolicy
  pub operation : ℕ → Attempt E R
  pub is_transient : E → Bool
  pub retry_after : E → Option ℤ
  pub uniform : ℕ → ℕ → ℕ

module _ {E R : Type 0} (s : Setting E R) where
  abbrev pause : ℕ → E → ℕ
  pause attempt error = delay s.uniform s.policy attempt (s.retry_after error)

  -- the `except` branch: raise, or sleep and go on with what is left of the loop
  on_error : ℕ → ℕ → E → Outcome E R → Outcome E R
  on_error attempts attempt error rest =
      if leb attempts attempt || not (s.is_transient error)
      then record { ending = raises error; calls = 1; sleeps = [] }
      else record {
        ending = rest.ending;
        calls = suc rest.calls;
        sleeps = pause attempt error ∷ rest.sleeps;
      }

  on_attempt : ℕ → ℕ → Attempt E R → Outcome E R → Outcome E R
  unfolding on_error
  on_attempt attempts attempt (returned r) rest = record {
    ending = returns r;
    calls = 1;
    sleeps = [];
  }
  on_attempt attempts attempt (raised e) rest = on_error attempts attempt e rest

  -- `for attempt in range(1, attempts + 1)`; the first argument counts the rounds left
  loop : ℕ → ℕ → ℕ → Outcome E R
  unfolding on_attempt
  loop zero attempts attempt = record { ending = exhausted; calls = 0; sleeps = [] }
  loop (suc left) attempts attempt =
      on_attempt attempts attempt (s.operation attempt) (loop left attempts (suc attempt))

  abbrev pub attempts_for : OperationSafety → ℕ
  attempts_for safe = s.policy.max_attempts
  attempts_for potentially_non_idempotent = 1

  unfoldable pub retry_operation : OperationSafety → Outcome E R
  unfolding loop
  retry_operation safety = loop (attempts_for safety) (attempts_for safety) 1

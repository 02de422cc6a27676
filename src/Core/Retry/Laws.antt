-- ===== src/Core/Retry/Laws.antt =====
-- What `retry_operation` promises: bounded calls, bounded pauses, and which error comes out.
use aishopping_agent.Common.Int.{pos_part}
use aishopping_agent.Common.{
  ℕ, zero, suc, ◌+◌, ◌-◌, ◌*◌, ◌^◌, List, ◌≤◌, ◌<◌, ◌≡◌, ◌⊎◌, inl, inr, refl, true, false, Option,
  none, some, [], ◌∷◌, length, arith, leb, Bool-cases,
}
use aishopping_agent.Core.Retry.{
  ℤ, OperationSafety, safe, potentially_non_idempotent, RetryPolicy, is_accepted, delay, Attempt,
  returned, raised, Ending, returns, raises, exhausted, Outcome, Setting, pause, on_error,
  on_attempt, loop, attempts_for, retry_operation,
}

-- How long the pause after a failed attempt may be: without advice from the server at most the
-- largest delay and the base delay doubled for each attempt before; with advice, at most what is
-- advised and the cap on advice.
abbrev pub PauseBound : RetryPolicy → ℕ → Option ℤ → ℕ → Type 0
PauseBound p attempt none t = (t ≤ p.max_delay) × (t ≤ p.base_delay * 2 ^ (attempt - 1))
PauseBound p attempt (some advised) t = (t ≤ p.retry_after_cap) × (t ≤ pos_part advised)

module _ {E R : Type 0} (s : Setting E R) where
  -- The retries that are meant: an attempt that returns ends them, one that raises is repeated
  -- exactly if its error is transient and attempts are left, and a pause lies between two attempts.
  pub data Runs (attempts : ℕ) : ℕ → Outcome E R → Type 0 where
    returns_now :
        {a : ℕ} {r : R}
        → s.operation a ≡ returned r
        → Runs attempts a (record { ending = returns r; calls = 1; sleeps = [] })
    raises_now :
        {a : ℕ} {e : E}
        → s.operation a ≡ raised e
        → (attempts ≤ a) ⊎ (s.is_transient e ≡ false)
        → Runs attempts a (record { ending = raises e; calls = 1; sleeps = [] })
    goes_on :
        {a : ℕ} {e : E} {o : Outcome E R}
        → s.operation a ≡ raised e
        → a < attempts
        → s.is_transient e ≡ true
        → Runs attempts (suc a) o
        → Runs attempts a
            (record { ending = o.ending; calls = suc o.calls; sleeps = pause s a e ∷ o.sleeps })

  on_error-Runs :
      (attempts attempt : ℕ) (e : E) (rest : Outcome E R)
      → s.operation attempt ≡ raised e
      → (attempt < attempts → Runs attempts (suc attempt) rest)
      → Runs attempts attempt (on_error s attempts attempt e rest)
  unfolding on_error
  on_error-Runs attempts attempt e rest op next = elim (Bool-cases (leb attempts attempt)) [
    | inl out ↦ rw out (raises_now op (inl (ground arith)))
    | inr more ↦ rw more (elim (Bool-cases (s.is_transient e)) [
      | inl t ↦ rw t (goes_on op (ground arith) t (next (ground arith)))
      | inr f ↦ rw f (raises_now op (inr f))
    ])
  ]

  on_attempt-Runs :
      (attempts attempt : ℕ) (outcome : Attempt E R) (rest : Outcome E R)
      → s.operation attempt ≡ outcome
      → (attempt < attempts → Runs attempts (suc attempt) rest)
      → Runs attempts attempt (on_attempt s attempts attempt outcome rest)
  unfolding on_attempt
  on_attempt-Runs attempts attempt (returned r) rest op next = returns_now op
  on_attempt-Runs attempts attempt (raised e) rest op next =
      on_error-Runs attempts attempt e rest op next

  loop-Runs :
      (left attempts attempt : ℕ)
      → attempts < attempt + left
      → 0 < left
      → Runs attempts attempt (loop s left attempts attempt)
  unfolding loop
  loop-Runs zero attempts attempt h p = absurd (omega arith)
  loop-Runs (suc left) attempts attempt h p =
      on_attempt-Runs attempts attempt (s.operation attempt) _ refl
        (λ more. loop-Runs left attempts (suc attempt) (omega arith) (omega arith))

  -- With a policy that `RetryPolicy` accepts, `retry_operation` makes the retries that are meant,
  -- starting at attempt 1: up to `max_attempts` of them for a safe operation, one for any other.
  pub retry_operation-Runs :
      (safety : OperationSafety)
      → is_accepted s.policy ≡ true
      → Runs (attempts_for s safety) 1 (retry_operation s safety)
  unfolding retry_operation is_accepted
  retry_operation-Runs safe h = loop-Runs s.policy.max_attempts _ 1 (omega arith) (ground arith)
  retry_operation-Runs potentially_non_idempotent h = loop-Runs 1 1 1 (omega arith) (omega arith)

  -- What the last call of the operation returned or raised is how the whole ends.
  abbrev pub EndsAs : Ending E R → Attempt E R → Type 0
  EndsAs (returns r) outcome = outcome ≡ returned r
  EndsAs (raises e) outcome = outcome ≡ raised e
  EndsAs exhausted outcome = ⊥

  Runs-counts :
      (attempts : ℕ) {a : ℕ} {o : Outcome E R}
      → Runs attempts a o
      → a ≤ attempts
      → (0 < o.calls)
        × (a + o.calls ≤ attempts + 1)
        × (suc (length o.sleeps) ≡ o.calls)
        × EndsAs o.ending (s.operation (a + o.calls - 1))
  Runs-counts attempts {a} (returns_now op) h =
      let back : a + 1 - 1 ≡ a = omega arith in (omega arith, omega arith, refl, rw back op)
  Runs-counts attempts {a} (raises_now op why) h =
      let back : a + 1 - 1 ≡ a = omega arith in (omega arith, omega arith, refl, rw back op)
  Runs-counts attempts {a} (goes_on {o = o} op more t next) h =
      let (some_calls, bounded, between, ends) = Runs-counts attempts next more in
      let back : a + suc o.calls - 1 ≡ suc a + o.calls - 1 = omega arith in
      (omega arith, omega arith, omega arith, rw back ends)

  -- Under an accepted policy the operation is called at least once, at most `max_attempts` times,
  -- and exactly once if it is not safe; between two calls lies one pause; and what the last call
  -- returned or raised is what `retry_operation` returns or raises (never `RuntimeError`).
  pub retry_operation-counts :
      (safety : OperationSafety)
      → is_accepted s.policy ≡ true
      → let o = retry_operation s safety in
        (0 < o.calls)
        × (o.calls ≤ s.policy.max_attempts)
        × (safety ≡ potentially_non_idempotent → o.calls ≡ 1)
        × (suc (length o.sleeps) ≡ o.calls)
        × EndsAs o.ending (s.operation o.calls)
  retry_operation-counts safety h =
      let o = retry_operation s safety in
      let positive : 1 ≤ s.policy.max_attempts = unfold is_accepted in ground arith in
      let (some_calls, bounded, between, ends) =
        Runs-counts (attempts_for s safety) (retry_operation-Runs safety h)
          (first safety positive) in
      let back : 1 + o.calls - 1 ≡ o.calls = omega arith in
      (
        some_calls,
        within safety positive bounded,
        once safety bounded some_calls,
        between,
        rw back at ends,
      )
    where
      first : (safety : OperationSafety) → 1 ≤ s.policy.max_attempts → 1 ≤ attempts_for s safety
      first safe p = p
      first potentially_non_idempotent p = omega arith

      within :
          {n : ℕ} (safety : OperationSafety)
          → 1 ≤ s.policy.max_attempts
          → 1 + n ≤ attempts_for s safety + 1
          → n ≤ s.policy.max_attempts
      within safe p b = omega arith
      within potentially_non_idempotent p b = omega arith

      once :
          {n : ℕ} (safety : OperationSafety)
          → 1 + n ≤ attempts_for s safety + 1
          → 0 < n
          → safety ≡ potentially_non_idempotent
          → n ≡ 1
      once safe b q e = cc
      once potentially_non_idempotent b q e = omega arith

module _ {E R : Type 0} (s : Setting E R)
    (jitter : (attempt ceiling : ℕ) → s.uniform attempt ceiling ≤ ceiling) where
  -- The pauses from an attempt on: each follows an attempt that raised an error, and is as long as
  -- the advice in that very error allows.
  abbrev pub PausesBounded : ℕ → List ℕ → Type 0
  PausesBounded attempt [] = Unit
  PausesBounded attempt (t ∷ ts) =
      ((e : E) × (s.operation attempt ≡ raised e) × PauseBound s.policy attempt (s.retry_after e) t)
      × PausesBounded (suc attempt) ts

  delay-PauseBound :
      (attempt : ℕ) (advised : Option ℤ)
      → PauseBound s.policy attempt advised (delay s.uniform s.policy attempt advised)
  delay-PauseBound attempt (some advised) = unfold delay in (omega arith, omega arith)
  delay-PauseBound attempt none =
      unfold delay in (omega (arith, jitter attempt _), omega (arith, jitter attempt _))

  Runs-PausesBounded :
      (attempts : ℕ) {a : ℕ} {o : Outcome E R} → Runs s attempts a o → PausesBounded a o.sleeps
  Runs-PausesBounded attempts (returns_now op) = tt
  Runs-PausesBounded attempts (raises_now op why) = tt
  Runs-PausesBounded attempts (goes_on {a = a} {e = e} op more t next) =
      ((e, op, delay-PauseBound a (s.retry_after e)), Runs-PausesBounded attempts next)

  -- Where `random.uniform` stays within its interval and the policy is accepted, every pause that
  -- `retry_operation` makes is bounded by the error that it follows: if that error carries no
  -- advice of the server, by `max_delay` and by the doubled base delay; if it does, by the cap on
  -- advice and by the advice.
  pub retry_operation-PausesBounded :
      (safety : OperationSafety)
      → is_accepted s.policy ≡ true
      → PausesBounded 1 (retry_operation s safety).sleeps
  retry_operation-PausesBounded safety h = Runs-PausesBounded _ (retry_operation-Runs s safety h)

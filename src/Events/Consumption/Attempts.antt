-- ===== src/Events/Consumption/Attempts.antt =====
-- A consumer that works only on what it may claim.
use aishopping_agent.Common.{
  inl, inr, Bool-cases, ℕ, suc, ◌+◌, ◌≤◌, ◌<◌, ◌≡◌, Bool, true, false, ◌&&◌, List, [], ◌∷◌, Option,
  arith, any_of, count_of, refl, if◌then◌else◌,
}
use aishopping_agent.Common.Time.{Datetime, aware}
use aishopping_agent.Events.Consumption.{
  bad_name, EventConsumptionError, EventConsumptionError, EventConsumptionAttempt,
  ConsumptionOutcome, Result, ok, err, is_terminal, is_claimable, terminal_of,
  count_failed_attempts, is_of, record_at, record_consumption_attempt, append_valid,
  validate_failure,
}

-- One round: when it is, and how the work ended.
pub record Round : Type 0 where
  pub now : ℕ
  pub outcome : ConsumptionOutcome
  pub failure_code : Option (List ℕ)
  pub next_retry_at : Option Datetime

module _ (is_space : ℕ → Bool) (event : ℕ) (consumer : List ℕ) (max_attempts : ℕ) where
  pub recorded :
      Result (List EventConsumptionAttempt)
      → List EventConsumptionAttempt
      → List EventConsumptionAttempt
  recorded (ok rows) attempts = rows
  recorded (err e) attempts = attempts

  -- In a round the event is worked on only if it may be claimed.
  pub round : Round → List EventConsumptionAttempt → List EventConsumptionAttempt
  unfolding recorded
  round r attempts =
      if is_claimable event consumer max_attempts r.now attempts
      then recorded
          (record_consumption_attempt is_space event consumer r.outcome (aware r.now) r.failure_code
            r.next_retry_at attempts)
          attempts
      else attempts

  pub rounds : List Round → List EventConsumptionAttempt → List EventConsumptionAttempt
  unfolding round
  rounds [] attempts = attempts
  rounds (r ∷ rs) attempts = rounds rs (round r attempts)

  abbrev pub count_terminal : List EventConsumptionAttempt → ℕ
  count_terminal attempts = count_of (λ a. is_of event consumer a && is_terminal a.outcome) attempts

  count-terminal_of :
      (attempts : List EventConsumptionAttempt)
      → terminal_of event consumer attempts ≡ false
      → count_terminal attempts ≡ 0
  unfolding terminal_of any_of count_of
  count-terminal_of [] h = refl
  count-terminal_of (a ∷ attempts) h = ground (arith, count-terminal_of attempts)

  -- What holds of the record: one final attempt at most, and no more than `max_attempts` in all.
  abbrev pub IsBounded : List EventConsumptionAttempt → Type 0
  IsBounded attempts =
      (count_terminal attempts ≤ 1)
      × (count_terminal attempts + count_failed_attempts event consumer attempts ≤ max_attempts)

  count_cons :
      (a : EventConsumptionAttempt) (attempts : List EventConsumptionAttempt)
      → count_terminal (a ∷ attempts) + count_failed_attempts event consumer (a ∷ attempts)
        ≤ suc (count_terminal attempts + count_failed_attempts event consumer attempts)
  unfolding count_of count_failed_attempts
  count_cons a attempts = ground arith

  count_terminal_cons :
      (a : EventConsumptionAttempt) (attempts : List EventConsumptionAttempt)
      → count_terminal (a ∷ attempts) ≤ suc (count_terminal attempts)
  unfolding count_of
  count_terminal_cons a attempts = ground arith

  append-IsBounded :
      (o : Option EventConsumptionError) (a : EventConsumptionAttempt)
      (attempts : List EventConsumptionAttempt)
      → terminal_of event consumer attempts ≡ false
      → count_failed_attempts event consumer attempts < max_attempts
      → IsBounded attempts
      → IsBounded (recorded (append_valid o a attempts) attempts)
  unfolding append_valid recorded
  append-IsBounded o a attempts t f h =
      ground
        (arith, count-terminal_of attempts t, count_cons a attempts, count_terminal_cons a attempts)

  record-IsBounded :
      (r : Round) (attempts : List EventConsumptionAttempt)
      → terminal_of event consumer attempts ≡ false
      → count_failed_attempts event consumer attempts < max_attempts
      → IsBounded attempts
      → IsBounded (
          recorded
            (record_consumption_attempt is_space event consumer r.outcome
              (aware r.now)
              r.failure_code
              r.next_retry_at
              attempts)
            attempts)
  unfolding record_consumption_attempt record_at
  record-IsBounded r attempts t f h = elim (Bool-cases (bad_name is_space consumer)) [
    | inl e ↦ rw e (unfold recorded in h)
    | inr e ↦ rw e (
        append-IsBounded (validate_failure r.outcome r.failure_code r.now r.next_retry_at) _
          attempts t f h)
  ]

  claimable_gives :
      (now : ℕ) (attempts : List EventConsumptionAttempt)
      → is_claimable event consumer max_attempts now attempts ≡ true
      → (terminal_of event consumer attempts ≡ false)
        × (count_failed_attempts event consumer attempts < max_attempts)
  unfolding is_claimable
  claimable_gives now attempts h = ground arith

  round-IsBounded :
      (r : Round) (attempts : List EventConsumptionAttempt)
      → IsBounded attempts
      → IsBounded (round r attempts)
  unfolding round
  round-IsBounded r attempts h =
      elim (Bool-cases (is_claimable event consumer max_attempts r.now attempts)) [
        | inl e ↦
            let (t, f) = claimable_gives r.now attempts e in
            rw e (record-IsBounded r attempts t f h)
        | inr e ↦ rw e h
      ]

  rounds-IsBounded :
      (rs : List Round) (attempts : List EventConsumptionAttempt)
      → IsBounded attempts
      → IsBounded (rounds rs attempts)
  unfolding rounds
  rounds-IsBounded [] attempts h = h
  rounds-IsBounded (r ∷ rs) attempts h =
      rounds-IsBounded rs (round r attempts) (round-IsBounded r attempts h)

  rounds_final :
      (rs : List Round) (attempts : List EventConsumptionAttempt)
      → terminal_of event consumer attempts ≡ true
      → rounds rs attempts ≡ attempts
  unfolding rounds round is_claimable
  rounds_final [] attempts h = refl
  rounds_final (r ∷ rs) attempts h = rw h (rounds_final rs attempts h)

  -- However many rounds a consumer makes, at whatever times and with whatever results, an event of
  -- which it has no attempts yet ends with at most one final attempt and with at most
  -- `max_attempts` in all; and after a final one no round adds anything.
  pub rounds_limited :
      (rs later : List Round)
      → let after = rounds rs [] in
        IsBounded after × (terminal_of event consumer after ≡ true → rounds later after ≡ after)
  rounds_limited rs later = (
    rounds-IsBounded rs [] (unfold count_of count_failed_attempts in (omega arith, omega arith)),
    rounds_final later (rounds rs []),
  )

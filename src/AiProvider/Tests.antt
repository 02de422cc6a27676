-- ===== src/AiProvider/Tests.antt =====
-- Attempts behind a circuit whose open interval is over.
use aishopping_agent.Common.{ℕ, ◌≡◌, ◌≢◌, inl, refl, arith, false, List, [], ◌∷◌, some, All}
use aishopping_agent.Core.Breaker.{CircuitBreaker, closed, opened, half_open, before_call, admitted}
use aishopping_agent.Core.Breaker.Laws.{IsValid}
use aishopping_agent.AiProvider.{
  Reply, response, capability_unsupported, raises_unavailable, attempt_provider,
}
use aishopping_agent.AiProvider.Probe.{attempt_releases, attempts, unrecorded_probe_blocks}

abbrev tripped : CircuitBreaker
tripped = record {
  failure_threshold = 3;
  open_seconds = 30;
  status = opened;
  failures = 3;
  opened_at = some 12;
  half_open_probe = false;
}

tripped-IsValid : IsValid tripped
tripped-IsValid = record {
  threshold_pos = omega arith;
  seconds_pos = omega arith;
  opened_since = λ e. λ f. cc;
  opened_released = λ e. refl;
  probing = λ e. cc;
  closed_released = λ e. refl;
  closed_below = λ e. cc;
  closed_clear = λ e. cc;
}

admitted_at_50 : (before_call tripped 50).1 ≡ admitted
unfolding before_call
admitted_at_50 = refl

abbrev answer : Reply ℕ
answer = response 7

attempt_releases_example :
    ((attempt_provider tripped 50 55 answer).circuit.half_open_probe ≡ false)
    × ((attempt_provider tripped 50 55 answer).circuit.status ≢ half_open)
    × ((r : ℕ)
        → answer ≡ response r
        → ((attempt_provider tripped 50 55 answer).circuit.status ≡ closed)
          × ((attempt_provider tripped 50 55 answer).circuit.failures ≡ 0))
attempt_releases_example = attempt_releases tripped 50 55 answer tripped-IsValid admitted_at_50 tt

abbrev unsupported : Reply ℕ
unsupported = capability_unsupported

abbrev stuck : CircuitBreaker
stuck = (attempt_provider tripped 50 55 unsupported).circuit

abbrev later : List (ℕ × ℕ × Reply ℕ)
later = (100, 101, answer) ∷ (5000, 5001, answer) ∷ []

unrecorded_probe_blocks_example :
    ((attempts stuck later).0 ≡ stuck) × All (λ r. r ≡ raises_unavailable) (attempts stuck later).1
unrecorded_probe_blocks_example =
    unrecorded_probe_blocks tripped 12 50 55 unsupported later tripped-IsValid refl refl
      (omega arith) (inl refl)

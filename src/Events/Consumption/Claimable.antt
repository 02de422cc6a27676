-- ===== src/Events/Consumption/Claimable.antt =====
-- The statement's conditions on an event and its order, said without the tests that decide them.
use aishopping_agent.Common.Texts.{
  same_text, same_text_refl, same_text_sound, text_in-Elem, Elem-text_in,
}
use aishopping_agent.Common.{
  ◌<◌, some, count_of, ℕ, ◌≤◌, ◌≡◌, true, false, List, [], ◌∷◌, Option, arith, Elem, any_of, refl,
  All, none, suc, ◌⊎◌, inl, inr, ◌≢◌, Bool-cases,
}
use aishopping_agent.Events.Consumption.{
  ConsumptionOutcome, succeeded, skipped, dead_lettered, is_failed, is_terminal, type_wanted, Event,
  EventConsumptionAttempt, failed, claim_order, is_claimed, is_claimable, terminal_of,
  count_failed_attempts, retry_pending, is_pending_at, is_of,
}

pub claim_order_total : (a b : Event) → claim_order a b ≡ false → claim_order b a ≡ true
unfolding claim_order
claim_order_total a b h = ground arith

pub claim_order_trans :
    (a b c : Event) → claim_order a b ≡ true → claim_order b c ≡ true → claim_order a c ≡ true
unfolding claim_order
claim_order_trans a b c h k = ground arith

-- An attempt that is not this consumer's on this event.
abbrev pub IsOther : ℕ → List ℕ → EventConsumptionAttempt → Type 0
IsOther event consumer a = (a.event_id ≢ event) ⊎ (a.consumer_name ≢ consumer)

-- Of the attempts, `n` are failed ones of this consumer on this event.
pub data Failures (event : ℕ) (consumer : List ℕ) : List EventConsumptionAttempt → ℕ → Type 0 where
  no_attempts : Failures event consumer [] 0
  not_counted :
      {a : EventConsumptionAttempt} {attempts : List EventConsumptionAttempt} {n : ℕ}
      → IsOther event consumer a ⊎ (a.outcome ≢ failed)
      → Failures event consumer attempts n
      → Failures event consumer (a ∷ attempts) n
  one_more :
      {a : EventConsumptionAttempt} {attempts : List EventConsumptionAttempt} {n : ℕ}
      → a.event_id ≡ event
      → a.consumer_name ≡ consumer
      → a.outcome ≡ failed
      → Failures event consumer attempts n
      → Failures event consumer (a ∷ attempts) (suc n)

-- An attempt does not stand in the way of a claim: it is another's, or a failed one with no retry
-- that is still to come.
abbrev pub LetsClaim : ℕ → List ℕ → ℕ → EventConsumptionAttempt → Type 0
LetsClaim event consumer now a =
    IsOther event consumer a
    ⊎ ((a.outcome ≡ failed)
        × ((a.next_retry_at ≡ none) ⊎ ((t : ℕ) × (a.next_retry_at ≡ some t) × (t ≤ now))))

-- What a consumer may claim: an event of a wanted type that nobody holds, where every attempt of
-- the consumer failed and asks for no later retry, fewer times than `max_attempts`.
pub record IsClaimable (consumer : List ℕ) (types : Option (List (List ℕ))) (max_attempts now : ℕ)
    (attempts : List EventConsumptionAttempt) (e : Event) : Type 0 where
  pub unlocked : e.is_locked ≡ false
  pub wanted : (types ≡ none) ⊎ ((ts : List (List ℕ)) × (types ≡ some ts) × Elem e.event_type ts)
  pub let_through : All (LetsClaim e.id consumer now) attempts
  pub failures : ℕ
  pub counted : Failures e.id consumer attempts failures
  pub attempts_left : failures < max_attempts

-- The event recorded earlier comes first, and of two at the same time the smaller identity.
abbrev pub RecordedFirst : Event → Event → Type 0
RecordedFirst a b =
    (a.recorded_at < b.recorded_at) ⊎ ((a.recorded_at ≡ b.recorded_at) × (a.id ≤ b.id))

pub claim_order-RecordedFirst : (a b : Event) → claim_order a b ≡ true → RecordedFirst a b
unfolding claim_order
claim_order-RecordedFirst a b h = ground arith

-- The test on an attempt, decided.
is_of-cases :
    (event : ℕ) (consumer : List ℕ) (a : EventConsumptionAttempt)
    → ((is_of event consumer a ≡ true) × (a.event_id ≡ event) × (a.consumer_name ≡ consumer))
      ⊎ ((is_of event consumer a ≡ false) × IsOther event consumer a)
unfolding is_of
is_of-cases event consumer a = elim (Bool-cases (same_text a.consumer_name consumer)) [
  | inl t ↦ let same = same_text_sound a.consumer_name consumer t in ground (arith, same)
  | inr f ↦
      let differ : a.consumer_name ≢ consumer = λ q.
        (let yes : same_text a.consumer_name consumer ≡ true = rw q (same_text_refl consumer) in
          ground arith) in
      inr (ground arith, inr differ)
]

outcome-cases :
    (o : ConsumptionOutcome)
    → ((o ≡ failed) × (is_failed o ≡ true) × (is_terminal o ≡ false))
      ⊎ ((o ≢ failed) × (is_failed o ≡ false) × (is_terminal o ≡ true))
outcome-cases failed = inl (refl, refl, refl)
outcome-cases succeeded = inr (λ q. cc, refl, refl)
outcome-cases skipped = inr (λ q. cc, refl, refl)
outcome-cases dead_lettered = inr (λ q. cc, refl, refl)

pending-cases :
    (o : Option ℕ) (now : ℕ)
    → is_pending_at now o ≡ false
    → (o ≡ none) ⊎ ((t : ℕ) × (o ≡ some t) × (t ≤ now))
unfolding is_pending_at
pending-cases none now h = inl refl
pending-cases (some t) now h = inr (t, refl, ground arith)

pending_gives :
    (o : Option ℕ) (now : ℕ)
    → (o ≡ none) ⊎ ((t : ℕ) × (o ≡ some t) × (t ≤ now))
    → is_pending_at now o ≡ false
unfolding is_pending_at
pending_gives o now (inl e) = rw e refl
pending_gives o now (inr e) = rw e.1 (ground (arith, e.2))

counted-Failures :
    (event : ℕ) (consumer : List ℕ) (attempts : List EventConsumptionAttempt)
    → Failures event consumer attempts (count_failed_attempts event consumer attempts)
unfolding count_failed_attempts count_of
counted-Failures event consumer [] = no_attempts
counted-Failures event consumer (a ∷ attempts) =
    let rest = counted-Failures event consumer attempts in
    elim (is_of-cases event consumer a) [
      | inr n ↦ rw n.0 (not_counted (inl n.1) rest)
      | inl y ↦ elim (outcome-cases a.outcome) [
        | inl f ↦ rw y.0 (rw f.1 (one_more y.1 y.2 f.0 rest))
        | inr f ↦ rw y.0 (rw f.1 (not_counted (inr f.0) rest))
      ]
    ]

Failures-counted :
    (event : ℕ) (consumer : List ℕ) {attempts : List EventConsumptionAttempt} {n : ℕ}
    → Failures event consumer attempts n
    → count_failed_attempts event consumer attempts ≡ n
unfolding count_failed_attempts count_of
Failures-counted event consumer no_attempts = refl
Failures-counted event consumer (not_counted {a = a} why rest) =
    let e = Failures-counted event consumer rest in
    elim (is_of-cases event consumer a) [
      | inr n ↦ rw n.0 e
      | inl y ↦ elim (outcome-cases a.outcome) [
        | inl f ↦ ground (arith, why, y, f)
        | inr f ↦ rw y.0 (rw f.1 e)
      ]
    ]
Failures-counted event consumer (one_more {a = a} event_same name_same f rest) =
    let e = Failures-counted event consumer rest in
    elim (is_of-cases event consumer a) [
      | inr n ↦ ground (arith, n.1)
      | inl y ↦ elim (outcome-cases a.outcome) [
        | inl o ↦ rw y.0 (rw o.1 (ground (arith, e)))
        | inr o ↦ absurd (o.0 f)
      ]
    ]

attempts_let :
    (event : ℕ) (consumer : List ℕ) (now : ℕ) (attempts : List EventConsumptionAttempt)
    → terminal_of event consumer attempts ≡ false
    → retry_pending event consumer now attempts ≡ false
    → All (LetsClaim event consumer now) attempts
unfolding terminal_of retry_pending any_of
attempts_let event consumer now [] t p = tt
attempts_let event consumer now (a ∷ attempts) t p =
    let rest = attempts_let event consumer now attempts (ground arith) (ground arith) in
    elim (is_of-cases event consumer a) [
      | inr n ↦ (inl n.1, rest)
      | inl y ↦ elim (outcome-cases a.outcome) [
        | inr f ↦ absurd (ground (arith, y.0, f.2))
        | inl f ↦ (inr (f.0, pending-cases a.next_retry_at now (ground (arith, y.0, f.1))), rest)
      ]
    ]

let_attempts :
    (event : ℕ) (consumer : List ℕ) (now : ℕ) (attempts : List EventConsumptionAttempt)
    → All (LetsClaim event consumer now) attempts
    → (terminal_of event consumer attempts ≡ false)
      × (retry_pending event consumer now attempts ≡ false)
unfolding terminal_of retry_pending any_of
let_attempts event consumer now [] h = (refl, refl)
let_attempts event consumer now (a ∷ attempts) h =
    let (ended, pending) = let_attempts event consumer now attempts h.1 in
    elim (is_of-cases event consumer a) [
      | inr n ↦ ground (arith, n.0, ended, pending)
      | inl y ↦ elim h.0 [
        | inl other ↦ ground (arith, other, y)
        | inr (f, ripe) ↦ elim (outcome-cases a.outcome) [
          | inr o ↦ absurd (o.0 f)
          | inl o ↦ ground (arith, o, ended, pending, pending_gives a.next_retry_at now ripe)
        ]
      ]
    ]

wanted_of :
    (types : Option (List (List ℕ))) (t : List ℕ)
    → type_wanted types t ≡ true
    → (types ≡ none) ⊎ ((ts : List (List ℕ)) × (types ≡ some ts) × Elem t ts)
unfolding type_wanted
wanted_of none t h = inl refl
wanted_of (some ts) t h = inr (ts, refl, text_in-Elem t ts h)

wanted_gives :
    (types : Option (List (List ℕ))) (t : List ℕ)
    → (types ≡ none) ⊎ ((ts : List (List ℕ)) × (types ≡ some ts) × Elem t ts)
    → type_wanted types t ≡ true
unfolding type_wanted
wanted_gives types t (inl e) = rw e refl
wanted_gives types t (inr (ts, e, m)) = rw e (Elem-text_in t ts m)

module _ (consumer : List ℕ) (types : Option (List (List ℕ))) (max_attempts now : ℕ)
    (attempts : List EventConsumptionAttempt) where
  pub is_claimed-IsClaimable :
      (e : Event)
      → is_claimed consumer types max_attempts now attempts e ≡ true
      → IsClaimable consumer types max_attempts now attempts e
  unfolding is_claimed is_claimable
  is_claimed-IsClaimable e h = record {
    unlocked = ground arith;
    wanted = wanted_of types e.event_type (ground arith);
    let_through = attempts_let e.id consumer now attempts (ground arith) (ground arith);
    failures = count_failed_attempts e.id consumer attempts;
    counted = counted-Failures e.id consumer attempts;
    attempts_left = ground arith;
  }

  pub IsClaimable-is_claimed :
      (e : Event)
      → IsClaimable consumer types max_attempts now attempts e
      → is_claimed consumer types max_attempts now attempts e ≡ true
  unfolding is_claimed is_claimable
  IsClaimable-is_claimed e c = ground (
    arith,
    let_attempts e.id consumer now attempts c.let_through,
    Failures-counted e.id consumer c.counted,
    c.attempts_left,
    wanted_gives types e.event_type c.wanted,
    c.unlocked,
  )

-- ===== src/Missions/Schedule/Backoff.antt =====
-- The backoff of a blocked source grows geometrically up to its cap, and its counter stops there.
use aishopping_agent.Common.{
  ℕ, zero, suc, ◌+◌, ◌*◌, ◌^◌, ◌≤◌, ◌<◌, ◌≡◌, ◌⊎◌, inl, inr, false, arith, leb, ltb, ◌&&◌,
  Bool-cases,
}
use native.Mathlib.Nat.{pow-suc}
use native.Mathlib.Numerals.{add-one}
use Prim.Native.Nat.{min}
use aishopping_agent.Missions.Schedule.{ok, next_backoff, next_source_backoff}

pow_pos : (n : ℕ) → 0 < 2 ^ n
pow_pos zero = omega arith
pow_pos (suc n) = rw (pow-suc 2 n) (omega (arith, pow_pos n))

doubled : (base n : ℕ) → base * 2 ^ (n + 1) ≡ 2 * (base * 2 ^ n)
doubled base n = rw (add-one, pow-suc) (omega arith)

scaled_pos : (base n : ℕ) → 0 < base → 0 < base * 2 ^ n
scaled_pos base n h = grind (arith, pow_pos n)

-- What one more block does, where the base and the cap are positive: the delay is the base doubled
-- as often as the new counter says, or the cap if that is less, and it is positive; the counter
-- grows by one, or stays where the delay is the cap.
pub next_source_backoff-delay :
    (base blocks ceiling : ℕ)
    → 0 < base
    → 0 < ceiling
    → let (blocks', delay) = next_backoff base blocks ceiling in
      (next_source_backoff base blocks ceiling ≡ ok (blocks', delay))
      × (delay ≡ min (base * 2 ^ blocks') ceiling)
      × (0 < delay)
      × ((blocks' ≡ blocks + 1) ⊎ ((blocks' ≡ blocks) × (delay ≡ ceiling)))
unfolding next_source_backoff
next_source_backoff-delay base blocks ceiling hb hc =
    (ground arith, ground arith, ground (arith, scaled_pos base (blocks + 1) hb), ground arith)

-- The counter after `n` blocks in a row, from a source that was not blocked.
pub blocks_after : ℕ → ℕ → ℕ → ℕ
blocks_after base ceiling zero = 0
blocks_after base ceiling (suc n) = (next_backoff base (blocks_after base ceiling n) ceiling).0

-- The delay that the block after `n` others is given.
pub delay_after : ℕ → ℕ → ℕ → ℕ
delay_after base ceiling n = (next_backoff base (blocks_after base ceiling n) ceiling).1

-- Where the counter stands after any number of blocks.
abbrev pub Below : ℕ → ℕ → ℕ → Type 0
Below base ceiling b = (b ≤ 1) ⊎ ((n : ℕ) × (b ≡ suc n) × (base * 2 ^ n < ceiling))

next_backoff-Below :
    (base b ceiling : ℕ) → Below base ceiling b → Below base ceiling (next_backoff base b ceiling).0
unfolding next_backoff
next_backoff-Below base b ceiling h = elim (Bool-cases (ltb 0 b && leb ceiling (base * 2 ^ b))) [
  | inl e ↦ rw e h
  | inr e ↦ rw e (go b e)
]
  where
    go : (b : ℕ) → (ltb 0 b && leb ceiling (base * 2 ^ b)) ≡ false → Below base ceiling (b + 1)
    go zero e = inl (omega arith)
    go (suc n) e = inr (suc n, omega arith, ground arith)

-- However often a source is blocked in a row, its counter passes 1 only while the delay for the
-- counter before it was still below the cap, so it does not grow for ever; and the delays never
-- shrink and never pass the cap.
pub blocks_after_bounded :
    (base ceiling n : ℕ)
    → 0 < base
    → 0 < ceiling
    → Below base ceiling (blocks_after base ceiling n)
      × (delay_after base ceiling n ≤ ceiling)
      × (delay_after base ceiling n ≤ delay_after base ceiling (suc n))
unfolding blocks_after delay_after
blocks_after_bounded base ceiling n hb hc =
    (below n, capped (blocks_after base ceiling n), grows (blocks_after base ceiling n))
  where
    below : (n : ℕ) → Below base ceiling (blocks_after base ceiling n)
    below zero = inl (omega arith)
    below (suc n) = next_backoff-Below base (blocks_after base ceiling n) ceiling (below n)

    capped : (b : ℕ) → (next_backoff base b ceiling).1 ≤ ceiling
    capped b = unfold next_backoff in ground arith

    grows :
        (b : ℕ)
        → (next_backoff base b ceiling).1
          ≤ (next_backoff base (next_backoff base b ceiling).0 ceiling).1
    grows b = unfold next_backoff in ground (arith, doubled base (b + 1))

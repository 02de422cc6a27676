-- ===== src/Coupons/Pricing/Best.antt =====
-- `best_applicable_coupon`: of all coupons that apply and can be priced, one with the least final
-- amount, although the candidates are first reduced to one for each code.
use aishopping_agent.Common.{
  sym, ap, ℕ, ◌≤◌, ◌≡◌, ◌⊎◌, inl, inr, Bool, true, false, not, Option, none, some, List, [], ◌∷◌,
  ◌++◌, All, Elem, arith, if◌then◌else◌, Bool-cases, ltb,
}
use mathlib.Core.Path.{subst}
use aishopping_agent.Coupons.Pricing.{
  Coupon, AppliedCoupon, price_candidate, has_code, replaces, same_key, enter, dedupe_from,
  seconds_of, dedupe_priced_candidates, least_from, cheapest,
}
use aishopping_agent.Coupons.Pricing.Url.{UrlLib, is_coupon_applicable}

unfoldable pub with_price :
    Coupon → Option AppliedCoupon → List (Coupon × AppliedCoupon) → List (Coupon × AppliedCoupon)
with_price c none rest = rest
with_price c (some a) rest = (c, a) ∷ rest

module _ (l : UrlLib) (url : List ℕ) (reference : ℕ) (currency : List ℕ) where
  -- the loop of `best_applicable_coupon`
  unfoldable pub price_all : List Coupon → List (Coupon × AppliedCoupon)
  unfolding with_price
  price_all [] = []
  price_all (c ∷ cs) =
      let rest = price_all cs in
      if not (is_coupon_applicable l c url)
      then rest
      else with_price c (price_candidate c reference currency) rest

  unfoldable pub best_applicable_coupon : List Coupon → Option AppliedCoupon
  unfolding price_all
  best_applicable_coupon cs = cheapest (dedupe_priced_candidates (price_all cs))

-- Some pair, or some result, is as cheap as `n`.
abbrev Covered : ℕ → List (Coupon × AppliedCoupon) → Type 0
Covered n [] = ⊥
Covered n (p ∷ ps) = (p.1.final_amount ≤ n) ⊎ Covered n ps

abbrev pub CoveredBy : ℕ → List AppliedCoupon → Type 0
CoveredBy n [] = ⊥
CoveredBy n (a ∷ as') = (a.final_amount ≤ n) ⊎ CoveredBy n as'

enter-Covered_old :
    (n : ℕ) (p : Coupon × AppliedCoupon) (bs : List (Coupon × AppliedCoupon))
    → Covered n bs
    → Covered n (enter p bs)
unfolding enter replaces
enter-Covered_old n p [] h = absurd h
enter-Covered_old n p (b ∷ bs) h = ground (arith, enter-Covered_old n p bs)

enter-Covered_new :
    (p : Coupon × AppliedCoupon) (bs : List (Coupon × AppliedCoupon))
    → Covered p.1.final_amount (enter p bs)
unfolding enter replaces
enter-Covered_new p [] = inl (omega arith)
enter-Covered_new p (b ∷ bs) = ground (arith, enter-Covered_new p bs)

CoveredBy-append_left :
    (n : ℕ) (xs ys : List AppliedCoupon) → CoveredBy n xs → CoveredBy n (xs ++ ys)
CoveredBy-append_left n [] ys h = absurd h
CoveredBy-append_left n (x ∷ xs) ys h = ground (arith, CoveredBy-append_left n xs ys)

CoveredBy-append_right :
    (n : ℕ) (xs ys : List AppliedCoupon) → CoveredBy n ys → CoveredBy n (xs ++ ys)
CoveredBy-append_right n [] ys h = h
CoveredBy-append_right n (x ∷ xs) ys h = inr (CoveredBy-append_right n xs ys h)

seconds-CoveredBy :
    (n : ℕ) (bs : List (Coupon × AppliedCoupon)) → Covered n bs → CoveredBy n (seconds_of bs)
unfolding seconds_of
seconds-CoveredBy n [] h = h
seconds-CoveredBy n ((c, a) ∷ bs) (inl h) = inl h
seconds-CoveredBy n ((c, a) ∷ bs) (inr h) = inr (seconds-CoveredBy n bs h)

step-covers_old :
    (coded : Bool) (n : ℕ) (p : Coupon × AppliedCoupon) (best : List (Coupon × AppliedCoupon))
    (alone : List AppliedCoupon)
    → Covered n best ⊎ CoveredBy n alone
    → Covered n (if coded then enter p best else best)
      ⊎ CoveredBy n (if coded then alone else alone ++ p.1 ∷ [])
step-covers_old true n p best alone (inl h) = inl (enter-Covered_old n p best h)
step-covers_old true n p best alone (inr h) = inr h
step-covers_old false n p best alone (inl h) = inl h
step-covers_old false n p best alone (inr h) = inr (CoveredBy-append_left n alone _ h)

step-covers_new :
    (coded : Bool) (n : ℕ) (p : Coupon × AppliedCoupon) (best : List (Coupon × AppliedCoupon))
    (alone : List AppliedCoupon)
    → p.1.final_amount ≡ n
    → Covered n (if coded then enter p best else best)
      ⊎ CoveredBy n (if coded then alone else alone ++ p.1 ∷ [])
step-covers_new true n p best alone h =
    inl (subst (λ k. Covered k (enter p best)) h (enter-Covered_new p best))
step-covers_new false n p best alone h = inr (CoveredBy-append_right n alone _ (inl (omega arith)))

-- Nothing that is covered is lost by the rest of the loop.
dedupe-covers_old :
    (n : ℕ) (ps best : List (Coupon × AppliedCoupon)) (alone : List AppliedCoupon)
    → Covered n best ⊎ CoveredBy n alone
    → Covered n (dedupe_from ps best alone).0 ⊎ CoveredBy n (dedupe_from ps best alone).1
unfolding dedupe_from
dedupe-covers_old n [] best alone h = h
dedupe-covers_old n (p ∷ ps) best alone h =
    dedupe-covers_old n ps _ _ (step-covers_old (has_code p.0.code) n p best alone h)

dedupe-covers :
    (p : Coupon × AppliedCoupon) (ps best : List (Coupon × AppliedCoupon))
    (alone : List AppliedCoupon)
    → Elem p ps
    → Covered p.1.final_amount (dedupe_from ps best alone).0
      ⊎ CoveredBy p.1.final_amount (dedupe_from ps best alone).1
unfolding dedupe_from
dedupe-covers p [] best alone h = absurd h
dedupe-covers p (x ∷ ps) best alone (inr h) = dedupe-covers p ps _ _ h
dedupe-covers p (x ∷ ps) best alone (inl h) = dedupe-covers_old p.1.final_amount ps _ _ (
    step-covers_new (has_code x.0.code) p.1.final_amount x best alone
      (ap (λ y. y.1.final_amount) (sym h)))

-- After the reduction every candidate is still matched by a result that is at most as dear.
pub dedupe-CoveredBy :
    (p : Coupon × AppliedCoupon) (ps : List (Coupon × AppliedCoupon))
    → Elem p ps
    → CoveredBy p.1.final_amount (dedupe_priced_candidates ps)
unfolding dedupe_priced_candidates
dedupe-CoveredBy p ps m = elim (dedupe-covers p ps [] [] m) [
  | inl h ↦ CoveredBy-append_left p.1.final_amount _ _ (seconds-CoveredBy p.1.final_amount _ h)
  | inr h ↦ CoveredBy-append_right p.1.final_amount _ _ h
]

-- And every result is one of the candidates.
module _ (P : AppliedCoupon → Type 0) where
  enter-All :
      (p : Coupon × AppliedCoupon) (bs : List (Coupon × AppliedCoupon))
      → P p.1
      → All (λ b. P b.1) bs
      → All (λ b. P b.1) (enter p bs)
  unfolding enter
  enter-All p [] h hs = (h, tt)
  enter-All p (b ∷ bs) h hs = elim (Bool-cases (same_key b.0 p.0)) [
    | inl e ↦ elim (Bool-cases (replaces b p)) [
      | inl r ↦ rw (e, r) (h, hs.1)
      | inr r ↦ rw (e, r) hs
    ]
    | inr e ↦ rw e (hs.0, enter-All p bs h hs.1)
  ]

  All-append : (xs ys : List AppliedCoupon) → All P xs → All P ys → All P (xs ++ ys)
  All-append [] ys h k = k
  All-append (x ∷ xs) ys h k = (h.0, All-append xs ys h.1 k)

  seconds-All : (bs : List (Coupon × AppliedCoupon)) → All (λ b. P b.1) bs → All P (seconds_of bs)
  unfolding seconds_of
  seconds-All [] h = tt
  seconds-All ((c, a) ∷ bs) h = (h.0, seconds-All bs h.1)

  step-All :
      (coded : Bool) (p : Coupon × AppliedCoupon) (best : List (Coupon × AppliedCoupon))
      (alone : List AppliedCoupon)
      → P p.1
      → All (λ b. P b.1) best
      → All P alone
      → All (λ b. P b.1) (if coded then enter p best else best)
        × All P (if coded then alone else alone ++ p.1 ∷ [])
  step-All true p best alone h hb ha = (enter-All p best h hb, ha)
  step-All false p best alone h hb ha = (hb, All-append alone (p.1 ∷ []) ha (h, tt))

  dedupe_from-All :
      (ps best : List (Coupon × AppliedCoupon)) (alone : List AppliedCoupon)
      → All (λ b. P b.1) ps
      → All (λ b. P b.1) best
      → All P alone
      → All (λ b. P b.1) (dedupe_from ps best alone).0 × All P (dedupe_from ps best alone).1
  unfolding dedupe_from
  dedupe_from-All [] best alone h hb ha = (hb, ha)
  dedupe_from-All (p ∷ ps) best alone h hb ha =
      let (hb', ha') = step-All (has_code p.0.code) p best alone h.0 hb ha in
      dedupe_from-All ps _ _ h.1 hb' ha'

  pub dedupe-All :
      (ps : List (Coupon × AppliedCoupon))
      → All (λ b. P b.1) ps
      → All P (dedupe_priced_candidates ps)
  unfolding dedupe_priced_candidates
  dedupe-All ps h =
      let (hb, ha) = dedupe_from-All ps [] [] h tt tt in
      All-append (seconds_of (dedupe_from ps [] []).0) _ (seconds-All _ hb) ha

  pub least_from-P :
      (a : AppliedCoupon) (bs : List AppliedCoupon) → P a → All P bs → P (least_from a bs)
  unfolding least_from
  least_from-P a [] h hs = h
  least_from-P a (b ∷ bs) h hs = elim (Bool-cases (ltb b.final_amount a.final_amount)) [
    | inl e ↦ rw e (least_from-P b bs hs.0 hs.1)
    | inr e ↦ rw e (least_from-P a bs h hs.1)
  ]

least_from-le :
    (a : AppliedCoupon) (bs : List AppliedCoupon) → (least_from a bs).final_amount ≤ a.final_amount
unfolding least_from
least_from-le a [] = omega arith
least_from-le a (b ∷ bs) = ground (arith, least_from-le a bs, least_from-le b bs)

pub least_from-CoveredBy :
    (n : ℕ) (a : AppliedCoupon) (bs : List AppliedCoupon)
    → CoveredBy n (a ∷ bs)
    → (least_from a bs).final_amount ≤ n
unfolding least_from
least_from-CoveredBy n a [] h = ground arith
least_from-CoveredBy n a (b ∷ bs) h = ground (
  arith,
  least_from-CoveredBy n a bs,
  least_from-CoveredBy n b bs,
  least_from-le a bs,
  least_from-le b bs,
)

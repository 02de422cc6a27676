-- ===== src/Coupons/Pricing/Optimal.antt =====
-- `best_applicable_coupon` is optimal.
use mathlib.Core.Path.{subst}
use aishopping_agent.Common.{
  if◌then◌else◌, ℕ, ◌≤◌, ◌≡◌, inl, inr, refl, Bool, true, false, not, Option, none, some, List, [],
  ◌∷◌, All, Elem,
}
use aishopping_agent.Coupons.Pricing.{
  Coupon, AppliedCoupon, price_candidate, dedupe_priced_candidates, cheapest, least_from,
}
use aishopping_agent.Coupons.Pricing.Url.{UrlLib, is_coupon_applicable}
use aishopping_agent.Coupons.Pricing.Best.{
  with_price, price_all, best_applicable_coupon, CoveredBy, dedupe-CoveredBy, dedupe-All,
  least_from-P, least_from-CoveredBy,
}

module _ (l : UrlLib) (url : List ℕ) (reference : ℕ) (currency : List ℕ) where
  -- A coupon applies to the offer and has this price.
  abbrev pub Offers : Coupon → AppliedCoupon → Type 0
  Offers c a =
      (is_coupon_applicable l c url ≡ true) × (price_candidate c reference currency ≡ some a)

  price_all-Elem :
      (c : Coupon) (a : AppliedCoupon) (cs : List Coupon)
      → Elem c cs
      → Offers c a
      → Elem (c, a) (price_all l url reference currency cs)
  unfolding price_all with_price
  price_all-Elem c a [] m o = absurd m
  price_all-Elem c a (x ∷ cs) (inl e) o =
      let o' : Offers x a = subst (λ y. Offers y a) e o in rw (o'.0, o'.1) (inl (λ i. (e i, a)))
  price_all-Elem c a (x ∷ cs) (inr m) o =
      later (is_coupon_applicable l x url) (price_candidate x reference currency)
        (price_all-Elem c a cs m o)
    where
      later :
          (applies : Bool) (o : Option AppliedCoupon)
          → Elem (c, a) (price_all l url reference currency cs)
          → Elem
              (c, a)
              (if not applies
                then price_all l url reference currency cs
                else with_price x o (price_all l url reference currency cs))
      later false o k = k
      later true none k = k
      later true (some b) k = inr k

  -- Where a price comes from.
  record Source (cs : List Coupon) (a : AppliedCoupon) : Type 0 where
    coupon : Coupon
    listed : Elem coupon cs
    offers : Offers coupon a

  with_price-Source :
      (all : List Coupon) (x : Coupon) (rest : List (Coupon × AppliedCoupon))
      → Elem x all
      → (applies : Bool) → is_coupon_applicable l x url ≡ applies
      → (o : Option AppliedCoupon) → price_candidate x reference currency ≡ o
      → All (λ p. Source all p.1) rest
      → All (λ p. Source all p.1) (if not applies then rest else with_price x o rest)
  unfolding with_price
  with_price-Source all x rest m false e o f h = h
  with_price-Source all x rest m true e none f h = h
  with_price-Source all x rest m true e (some a) f h =
      (record { coupon = x; listed = m; offers = (e, f) }, h)

  price_all-Source :
      (all cs : List Coupon)
      → ((c : Coupon) → Elem c cs → Elem c all)
      → All (λ p. Source all p.1) (price_all l url reference currency cs)
  unfolding price_all
  price_all-Source all [] sub = tt
  price_all-Source all (x ∷ cs) sub =
      with_price-Source all x _ (sub x (inl refl)) _ refl _ refl
        (price_all-Source all cs (λ c m. sub c (inr m)))

  cheapest-Source :
      (cs : List Coupon) (ds : List AppliedCoupon) {a : AppliedCoupon}
      → All (Source cs) ds
      → cheapest ds ≡ some a
      → Source cs a × ((n : ℕ) → CoveredBy n ds → a.final_amount ≤ n)
  unfolding cheapest
  cheapest-Source cs [] h e = cc
  cheapest-Source cs (d ∷ ds) {a} h e =
      let same : least_from d ds ≡ a = cc in
      (
        subst (Source cs) same (least_from-P (Source cs) d ds h.0 h.1),
        λ n k. subst (λ b. b.final_amount ≤ n) same (least_from-CoveredBy n d ds k),
      )

  cheapest-none : (ds : List AppliedCoupon) (n : ℕ) → cheapest ds ≡ none → CoveredBy n ds → ⊥
  unfolding cheapest
  cheapest-none [] n e k = k
  cheapest-none (d ∷ ds) n e k = cc

  -- The coupon chosen is one of those given, applies to the offer and has that price; and no given
  -- coupon that applies and can be priced has a lower final amount, also not one that the
  -- reduction to one candidate for each store and code has dropped.
  pub best_applicable_coupon_least :
      (cs : List Coupon) {a : AppliedCoupon}
      → best_applicable_coupon l url reference currency cs ≡ some a
      → ((c : Coupon) × Elem c cs × Offers c a)
        × ((c : Coupon) (b : AppliedCoupon)
            → Elem c cs
            → Offers c b
            → a.final_amount ≤ b.final_amount)
  unfolding best_applicable_coupon
  best_applicable_coupon_least cs {a} e =
      let priced = price_all l url reference currency cs in
      let (s, least) =
        cheapest-Source cs (dedupe_priced_candidates priced)
          (dedupe-All (Source cs) priced (price_all-Source cs cs (λ c m. m))) e in
      (
        (s.coupon, s.listed, s.offers),
        λ c b m o.
            least b.final_amount (dedupe-CoveredBy (c, b) priced (price_all-Elem c b cs m o)),
      )

  -- No coupon is chosen only if none of those given applies and can be priced.
  pub best_applicable_coupon-none :
      (cs : List Coupon) (c : Coupon) (b : AppliedCoupon)
      → best_applicable_coupon l url reference currency cs ≡ none
      → Elem c cs
      → ¬ Offers c b
  unfolding best_applicable_coupon
  best_applicable_coupon-none cs c b e m o =
      let priced = price_all l url reference currency cs in
      cheapest-none (dedupe_priced_candidates priced) b.final_amount e
        (dedupe-CoveredBy (c, b) priced (price_all-Elem c b cs m o))

-- ===== src/Collection/Funnel/Orders.antt =====
-- backend/app/collection/funnel.py: what the funnel's tests and orders mean, in numbers.
use aishopping_agent.Common.{
  ℕ, ◌*◌, ◌<◌, ◌≤◌, ◌≡◌, ◌≢◌, ◌⊎◌, inl, inr, refl, true, Option, none, some, List, [], ◌∷◌, arith,
  Bool-cases, not, leb, take, length, zero, suc, ap,
}
use aishopping_agent.Alerts.{Availability, available, unavailable, unknown}
use aishopping_agent.Purchase.Comparison.{leb_text}
use aishopping_agent.Collection.Funnel.{
  Item, brand_new, refurbished, not_known, used, eligible, is_unavailable, key_then, popular_order,
  cheap_order, dominates, single_out, condition_rank, popularity_points, points_of, sales_count,
  identity,
}

-- The offer is not known to be unavailable.
abbrev pub IsOnSale : Item → Type 0
IsOnSale i = i.availability ≢ some unavailable

-- The rating times the number of reviews; nothing where one of them is not known.
abbrev pub IsPopularity : Item → ℕ → Type 0
IsPopularity i n =
    ((rating reviews : ℕ) × (i.rating_average ≡ some rating)
      × (i.review_count ≡ some reviews)
      × (n ≡ rating * reviews))
    ⊎ (((i.rating_average ≡ none) ⊎ (i.review_count ≡ none)) × (n ≡ 0))

-- The first goes before the second into the pool: it has more points; or as many and more sales; or as
-- many of those too and is cheaper; or all that is equal, and its identity is not the later text.
abbrev pub IsMorePopular : Item → Item → Type 0
IsMorePopular a b =
    (popularity_points b < popularity_points a)
    ⊎ ((popularity_points b ≡ popularity_points a)
        × ((sales_count b < sales_count a)
            ⊎ ((sales_count b ≡ sales_count a)
                × ((a.total_amount < b.total_amount)
                    ⊎ ((a.total_amount ≡ b.total_amount)
                        × (leb_text (identity a) (identity b) ≡ true))))))

-- The first is chosen before the second: its condition is better; or the same, and it is cheaper; or as
-- dear, and has more points; or all that is equal, and its identity is not the later text.
abbrev pub IsCheaper : Item → Item → Type 0
IsCheaper a b =
    (condition_rank a.condition < condition_rank b.condition)
    ⊎ ((condition_rank a.condition ≡ condition_rank b.condition)
        × ((a.total_amount < b.total_amount)
            ⊎ ((a.total_amount ≡ b.total_amount)
                × ((popularity_points b < popularity_points a)
                    ⊎ ((popularity_points b ≡ popularity_points a)
                        × (leb_text (identity a) (identity b) ≡ true))))))

-- The first has points, and at least three times those of the second.
abbrev pub IsDominant : Item → Item → Type 0
IsDominant a b = (0 < popularity_points a) × (3 * popularity_points b ≤ popularity_points a)

-- Of exactly two, neither dominates the other.
abbrev pub IsBalanced : List Item → Type 0
IsBalanced (a ∷ b ∷ []) = (¬ IsDominant a b) × (¬ IsDominant b a)
IsBalanced _ = Unit

-- Conditions from the best to the worst.
abbrev pub ConditionsRanked : Type 0
ConditionsRanked =
    (condition_rank brand_new < condition_rank refurbished)
    × (condition_rank refurbished < condition_rank not_known)
    × (condition_rank not_known < condition_rank used)

pub condition_rank-ConditionsRanked : ConditionsRanked
unfolding condition_rank
condition_rank-ConditionsRanked = (omega arith, omega arith, omega arith)

pub eligible-IsOnSale : (i : Item) → eligible i ≡ true → IsOnSale i
unfolding eligible is_unavailable
eligible-IsOnSale i h e = on_sale i.availability h e
  where
    on_sale : (o : Option Availability) → not (is_unavailable o) ≡ true → o ≢ some unavailable
    on_sale none h e = cc
    on_sale (some available) h e = cc
    on_sale (some unknown) h e = cc
    on_sale (some unavailable) h e = ground arith

pub IsOnSale-eligible : (i : Item) → IsOnSale i → eligible i ≡ true
unfolding eligible is_unavailable
IsOnSale-eligible i h = on_sale i.availability h
  where
    on_sale : (o : Option Availability) → o ≢ some unavailable → not (is_unavailable o) ≡ true
    on_sale none h = refl
    on_sale (some available) h = refl
    on_sale (some unknown) h = refl
    on_sale (some unavailable) h = absurd (h refl)

points-IsPopularity :
    (rating reviews : Option ℕ)
    → ((r c : ℕ) × (rating ≡ some r) × (reviews ≡ some c) × (points_of rating reviews ≡ r * c))
      ⊎ (((rating ≡ none) ⊎ (reviews ≡ none)) × (points_of rating reviews ≡ 0))
unfolding points_of
points-IsPopularity none none = inr (inl refl, refl)
points-IsPopularity none (some c) = inr (inl refl, refl)
points-IsPopularity (some r) none = inr (inr refl, refl)
points-IsPopularity (some r) (some c) = inl (r, c, refl, refl, refl)

pub popularity_points-IsPopularity : (i : Item) → IsPopularity i (popularity_points i)
unfolding popularity_points
popularity_points-IsPopularity i = points-IsPopularity i.rating_average i.review_count

pub popular_order-IsMorePopular : (a b : Item) → popular_order a b ≡ true → IsMorePopular a b
unfolding popular_order key_then
popular_order-IsMorePopular a b h = ground arith

pub cheap_order-IsCheaper : (a b : Item) → cheap_order a b ≡ true → IsCheaper a b
unfolding cheap_order key_then
cheap_order-IsCheaper a b h = ground arith

pub dominates-IsDominant : (a b : Item) → dominates a b ≡ true → IsDominant a b
unfolding dominates
dominates-IsDominant a b h = (ground arith, ground arith)

pub single_out-IsBalanced : (xs : List Item) → IsBalanced (single_out xs)
unfolding single_out dominates
single_out-IsBalanced [] = tt
single_out-IsBalanced (a ∷ []) = tt
single_out-IsBalanced (a ∷ b ∷ []) =
    elim (Bool-cases (leb (popularity_points b) (popularity_points a))) [
      | inl e ↦ rw e (elim (Bool-cases (dominates a b)) [
        | inl d ↦ rw d tt
        | inr d ↦ rw d ((λ (p, q). ground arith), (λ (p, q). ground arith))
      ])
      | inr e ↦ rw e (elim (Bool-cases (dominates b a)) [
        | inl d ↦ rw d tt
        | inr d ↦ rw d ((λ (p, q). ground arith), (λ (p, q). ground arith))
      ])
    ]
single_out-IsBalanced (a ∷ b ∷ c ∷ xs) = tt

pub take_all : {A : Type 0} → (n : ℕ) (xs : List A) → length xs ≤ n → take n xs ≡ xs
take_all zero [] h = refl
take_all zero (x ∷ xs) h = absurd (omega arith)
take_all (suc n) [] h = refl
take_all (suc n) (x ∷ xs) h = ap (λ ys. x ∷ ys) (take_all n xs (omega arith))

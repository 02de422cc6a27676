-- ===== src/Collection/Funnel.antt =====
-- backend/app/collection/funnel.py: which offers of one round go on to the classification. A rating is
-- the decimal times 100 and an amount the decimal times 10000, so the points are 100 times the
-- program's. An absent attribute is `none`; a condition that is absent ranks as `unknown`.
pub mod Choice
pub mod Orders
pub mod Selection
mod Tests
use aishopping_agent.Common.{
  ℕ, ◌+◌, ◌*◌, List, [], ◌∷◌, ◌++◌, Option, none, some, Bool, true, false, not, ◌&&◌, ◌||◌, ◌==◌,
  ltb, leb, if◌then◌else◌, keep, take, sort_by,
}
use aishopping_agent.Common.Texts.{codes}
use aishopping_agent.Alerts.{Availability, available, unavailable, unknown}
use aishopping_agent.Purchase.Comparison.{leb_text}

pub data OfferCondition : Type 0 where
  brand_new refurbished not_known used : OfferCondition

pub record Item : Type 0 where
  pub source_code : List ℕ
  pub external_id : Option (List ℕ)
  pub url : List ℕ
  pub rating_average : Option ℕ
  pub review_count : Option ℕ
  pub sales : Option ℕ
  pub condition : OfferCondition
  pub availability : Option Availability
  pub total_amount : ℕ

pub record FunnelSelection : Type 0 where
  pub pool : List Item
  pub chosen : List Item

unfoldable pub points_of : Option ℕ → Option ℕ → ℕ
points_of (some rating) (some reviews) = rating * reviews
points_of _ _ = 0

unfoldable pub popularity_points : Item → ℕ
unfolding points_of
popularity_points i = points_of i.rating_average i.review_count

or_zero : Option ℕ → ℕ
or_zero none = 0
or_zero (some n) = n

unfoldable pub sales_count : Item → ℕ
unfolding or_zero
sales_count i = or_zero i.sales

-- `raw.external_id or raw.url`
or_url : Option (List ℕ) → List ℕ → List ℕ
or_url none url = url
or_url (some []) url = url
or_url (some (c ∷ cs)) url = c ∷ cs

unfoldable pub identity : Item → List ℕ
unfolding or_url
identity i = i.source_code ++ codes ":" ++ or_url i.external_id i.url

unfoldable pub condition_rank : OfferCondition → ℕ
condition_rank brand_new = 0
condition_rank refurbished = 1
condition_rank not_known = 2
condition_rank used = 3

unfoldable pub is_unavailable : Option Availability → Bool
is_unavailable (some unavailable) = true
is_unavailable _ = false

unfoldable pub eligible : Item → Bool
unfolding is_unavailable
eligible i = not (is_unavailable i.availability)

-- The next part of a key decides when this one is equal.
unfoldable pub key_then : ℕ → ℕ → Bool → Bool
key_then a b rest = ltb a b || (a == b && rest)

-- `(-popularity_points, -_sales_count, total_amount, _identity)`
unfoldable pub popular_order : Item → Item → Bool
unfolding key_then
popular_order a b = key_then (popularity_points b) (popularity_points a) (
    key_then (sales_count b) (sales_count a)
      (key_then a.total_amount b.total_amount (leb_text (identity a) (identity b))))

-- `(_condition_rank, total_amount, -popularity_points, _identity)`
unfoldable pub cheap_order : Item → Item → Bool
unfolding key_then
cheap_order a b = key_then (condition_rank a.condition) (condition_rank b.condition) (
    key_then a.total_amount b.total_amount
      (key_then (popularity_points b) (popularity_points a) (leb_text (identity a) (identity b))))

unfoldable pub dominates : Item → Item → Bool
dominates better other =
    ltb 0 (popularity_points better) && leb (3 * popularity_points other) (popularity_points better)

-- Of two, the one that the ratings single out.
unfoldable pub single_out : List Item → List Item
unfolding dominates
single_out (a ∷ b ∷ []) =
    if leb (popularity_points b) (popularity_points a)
    then (if dominates a b then a ∷ [] else a ∷ b ∷ [])
    else (if dominates b a then b ∷ [] else a ∷ b ∷ [])
single_out items = items

unfoldable pub pool_of : List Item → ℕ → List Item
unfolding popular_order eligible
pool_of items pool_size = take pool_size (sort_by popular_order (keep eligible items))

unfoldable pub chosen_of : List Item → ℕ → List Item
unfolding cheap_order single_out
chosen_of pool ai_count = single_out (take ai_count (sort_by cheap_order pool))

-- `none` for the `ValueError`.
unfoldable pub select_for_ai : List Item → ℕ → ℕ → Option FunnelSelection
unfolding pool_of chosen_of
select_for_ai items pool_size ai_count =
    if ltb pool_size 1 || ltb ai_count 1
    then none
    else (let pool = pool_of items pool_size in
        some (record { pool = pool; chosen = chosen_of pool ai_count }))

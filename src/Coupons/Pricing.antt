-- ===== src/Coupons/Pricing.antt =====
-- backend/app/coupons/pricing.py: which coupon gives the best final price. Amounts that come from
-- the tables are NUMERIC(19, 4), so they are counted in ten-thousandths; a price is a natural
-- number, and the worker's figures are integers, since nothing keeps them from being negative. A
-- percentage of a price is exact in units of 10^-10, the unit of what is computed. `Decimal`'s limit
-- of 28 digits, which such amounts do not reach, is not modelled. `normalize_offer_url` works on the
-- results of `urllib.parse`, which is a parameter.
pub mod Url
pub mod Price
pub mod Best
pub mod Optimal
mod Tests
use aishopping_agent.Common.{
  ℕ, ◌+◌, ◌-◌, ◌*◌, ◌≡◌, Bool, true, false, not, ◌&&◌, ◌||◌, Option, none, some, List, [], ◌∷◌,
  ◌++◌, ltb, leb, ◌==◌, if◌then◌else◌, is_none,
}
use aishopping_agent.Common.Texts.{same_text}
use aishopping_agent.Common.Int.{ℤ, pos, negsuc, pos_part, neg_part, leb_ℤ, ltb_ℤ}

-- The two kinds that are known, and any other text.
pub data DiscountKind : Type 0 where
  fixed_amount percentage other_kind : DiscountKind

pub data ScopeKind : Type 0 where
  store_wide product other_scope : ScopeKind

pub record Coupon : Type 0 where
  pub id : ℕ
  pub store_id : ℕ
  pub code : List ℕ
  pub discount_kind : Option DiscountKind
  pub discount_value : Option ℤ
  pub minimum_purchase_amount : Option ℤ
  pub maximum_discount_amount : Option ℤ
  pub scope_kind : Option ScopeKind
  pub scope_reference : Option (List ℕ)
  pub derived_reference_price : Option ℤ
  pub last_seen_at : ℕ
  pub is_active : Bool
  pub raw_rule_text : Option (List ℕ)

-- From ten-thousandths to units of 10^-10.
abbrev pub fine : ℕ
fine = 1000000

unfoldable pub scale : ℕ → ℤ → ℤ
scale n (pos m) = pos (n * m)
scale n (negsuc m) = if n == 0 then pos 0 else negsuc (n * m + n - 1)

-- `min(a, b)` of two integers
min_ℤ : ℤ → ℤ → ℤ
min_ℤ a b = if leb_ℤ a b then a else b

unfoldable pub is_derived_discount_still_valid : Coupon → Bool
is_derived_discount_still_valid c = is_none c.derived_reference_price

-- the discount before the cap, in fine units; `none` if its kind is not known
unfoldable pub raw_discount : Option DiscountKind → ℤ → ℕ → Option ℤ
unfolding scale
raw_discount (some fixed_amount) value reference = some (scale fine value)
raw_discount (some percentage) value reference = some (scale reference value)
raw_discount _ value reference = none

capped : Option ℤ → ℤ → ℤ
unfolding min_ℤ scale
capped none discount = discount
capped (some most) discount = min_ℤ discount (scale fine most)

below_minimum : Option ℤ → ℕ → Bool
below_minimum none reference = false
below_minimum (some least) reference = ltb_ℤ (pos reference) least

-- `(discount, final)` if the discount is positive
settle : ℕ → ℤ → Option (ℕ × ℕ)
settle total (negsuc d) = none
settle total (pos d) = if d == 0 then none else some (d, total - d)

price_from : Option ℤ → Coupon → ℕ → Option (ℕ × ℕ)
unfolding settle min_ℤ
price_from none c reference = none
price_from (some discount) c reference =
    settle (reference * fine)
      (min_ℤ (capped c.maximum_discount_amount discount) (pos (reference * fine)))

on_value : Option ℤ → Coupon → ℕ → Option (ℕ × ℕ)
unfolding raw_discount capped below_minimum price_from
on_value none c reference = none
on_value (some value) c reference =
    if below_minimum c.minimum_purchase_amount reference
    then none
    else price_from (raw_discount c.discount_kind value reference) c reference

unfoldable pub calculate_final_price : ℕ → Coupon → Option (ℕ × ℕ)
unfolding on_value
calculate_final_price reference c = on_value c.discount_value c reference

-- Amounts in fine units. The code, kind and rule text are those of the coupon.
pub record AppliedCoupon : Type 0 where
  pub coupon_id : ℕ
  pub code : List ℕ
  pub discount_kind : Option DiscountKind
  pub original_amount : ℕ
  pub discount_amount : ℕ
  pub final_amount : ℕ
  pub currency : List ℕ
  pub raw_rule_text : Option (List ℕ)

applied_with : Coupon → ℕ → List ℕ → Option (ℕ × ℕ) → Option AppliedCoupon
applied_with c reference currency none = none
applied_with c reference currency (some (discount, final)) = some (record {
  coupon_id = c.id;
  code = c.code;
  discount_kind = c.discount_kind;
  original_amount = reference * fine;
  discount_amount = discount;
  final_amount = final;
  currency = currency;
  raw_rule_text = c.raw_rule_text;
})

unfoldable pub price_candidate : Coupon → ℕ → List ℕ → Option AppliedCoupon
unfolding applied_with
price_candidate c reference currency =
    if not (is_derived_discount_still_valid c)
    then none
    else applied_with c reference currency (calculate_final_price reference c)

-- equality of `_logical_key`s
unfoldable pub same_key : Coupon → Coupon → Bool
same_key a b = a.store_id == b.store_id && same_text a.code b.code

abbrev pub has_code : List ℕ → Bool
has_code [] = false
has_code (x ∷ xs) = true

-- `is_better or is_tiebreak`: whether the second pair replaces the first
unfoldable pub replaces : Coupon × AppliedCoupon → Coupon × AppliedCoupon → Bool
replaces (old, old_applied) (new, new_applied) =
    ltb new_applied.final_amount old_applied.final_amount
    || (new_applied.final_amount == old_applied.final_amount
        && ltb old.last_seen_at new.last_seen_at)

-- One step of the loop on `best_by_key`: a `dict`, which keeps the place of a key's first pair.
enter : Coupon × AppliedCoupon → List (Coupon × AppliedCoupon) → List (Coupon × AppliedCoupon)
enter p [] = p ∷ []
enter p (b ∷ bs) =
    let rest = enter p bs in
    if same_key b.0 p.0 then (if replaces b p then p else b) ∷ bs else b ∷ rest

dedupe_from :
    List (Coupon × AppliedCoupon)
    → List (Coupon × AppliedCoupon)
    → List AppliedCoupon
    → List (Coupon × AppliedCoupon) × List AppliedCoupon
unfolding enter
dedupe_from [] best alone = (best, alone)
dedupe_from (p ∷ ps) best alone =
    dedupe_from ps (if has_code p.0.code then enter p best else best)
      (if has_code p.0.code then alone else alone ++ p.1 ∷ [])

seconds_of : List (Coupon × AppliedCoupon) → List AppliedCoupon
seconds_of [] = []
seconds_of ((c, a) ∷ ps) = a ∷ seconds_of ps

unfoldable pub dedupe_priced_candidates : List (Coupon × AppliedCoupon) → List AppliedCoupon
unfolding dedupe_from seconds_of
dedupe_priced_candidates priced =
    let (best, alone) = dedupe_from priced [] [] in seconds_of best ++ alone

-- `min(deduped, key=…)`: the first of the least
unfoldable pub least_from : AppliedCoupon → List AppliedCoupon → AppliedCoupon
least_from a [] = a
least_from a (b ∷ bs) = least_from (if ltb b.final_amount a.final_amount then b else a) bs

unfoldable pub cheapest : List AppliedCoupon → Option AppliedCoupon
unfolding least_from
cheapest [] = none
cheapest (a ∷ as') = some (least_from a as')

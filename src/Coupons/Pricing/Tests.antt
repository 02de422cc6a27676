-- ===== src/Coupons/Pricing/Tests.antt =====
-- Coupons of one store: ten per cent off, and an amount off.
use aishopping_agent.Common.{
  ℕ, ◌≤◌, ◌<◌, ◌+◌, ◌*◌, ◌≡◌, refl, true, some, none, List, [], ◌∷◌, Elem,
}
use aishopping_agent.Common.Int.{ℤ, pos, ◌≤ℤ◌}
use aishopping_agent.Common.Texts.{same_text}
use aishopping_agent.Coupons.Pricing.{
  cheapest, dedupe_priced_candidates, price_candidate, is_derived_discount_still_valid, same_key,
  Coupon, DiscountKind, ScopeKind, AppliedCoupon, fine, scale, raw_discount, calculate_final_price,
}
use aishopping_agent.Coupons.Pricing.Url.{UrlLib, is_coupon_applicable}
use aishopping_agent.Coupons.Pricing.Best.{best_applicable_coupon}
use aishopping_agent.Coupons.Pricing.Price.{calculate_final_price_sound}
use aishopping_agent.Coupons.Pricing.Optimal.{Offers, best_applicable_coupon_least}

abbrev ten_percent : Coupon
ten_percent = record {
  id = 1;
  store_id = 9;
  code = 65 ∷ [];
  discount_kind = some DiscountKind.percentage;
  discount_value = some (pos 100000);
  minimum_purchase_amount = some (pos 500000);
  maximum_discount_amount = none;
  scope_kind = some ScopeKind.store_wide;
  scope_reference = none;
  derived_reference_price = none;
  last_seen_at = 3;
  is_active = true;
  raw_rule_text = none;
}

abbrev fifty_off : Coupon
fifty_off = record ten_percent {
  id = 2;
  code = 66 ∷ [];
  discount_kind = some DiscountKind.fixed_amount;
  discount_value = some (pos 500000);
}

-- A store of functions that leaves every URL as it is.
abbrev url_lib : UrlLib
url_lib = record {
  urlsplit = λ u. record { hostname = none; path = u; query = [] };
  parse_qsl = λ q. [];
  urlencode = λ q. [];
  urlunsplit = λ a b c d e. c;
  lower = λ t. t;
}

ten_percent-priced : calculate_final_price 1000000 ten_percent ≡ some (100000000000, 900000000000)
unfolding calculate_final_price
ten_percent-priced = refl

calculate_final_price_sound_example :
    (0 < 100000000000)
    × (100000000000 + 900000000000 ≡ 1000000 * fine)
    × ((m : ℤ) → ten_percent.maximum_discount_amount ≡ some m → pos 100000000000 ≤ℤ scale fine m)
    × ((m : ℤ) → ten_percent.minimum_purchase_amount ≡ some m → m ≤ℤ pos 1000000)
    × ((value : ℤ) × (raw : ℤ) × (ten_percent.discount_value ≡ some value)
        × (raw_discount ten_percent.discount_kind value 1000000 ≡ some raw)
        × (pos 100000000000 ≤ℤ raw))
calculate_final_price_sound_example =
    calculate_final_price_sound 1000000 ten_percent ten_percent-priced

abbrev coupons : List Coupon
coupons = ten_percent ∷ fifty_off ∷ []

abbrev brl : List ℕ
brl = 66 ∷ 82 ∷ 76 ∷ []

abbrev best : AppliedCoupon
best = record {
  coupon_id = 2;
  code = 66 ∷ [];
  discount_kind = some DiscountKind.fixed_amount;
  original_amount = 1000000000000;
  discount_amount = 500000000000;
  final_amount = 500000000000;
  currency = brl;
  raw_rule_text = none;
}

chosen : best_applicable_coupon url_lib [] 1000000 brl coupons ≡ some best
unfolding best_applicable_coupon cheapest dedupe_priced_candidates is_coupon_applicable
    price_candidate is_derived_discount_still_valid calculate_final_price same_key same_text
chosen = refl

best_applicable_coupon_least_example :
    ((c : Coupon) × Elem c coupons × Offers url_lib [] 1000000 brl c best)
    × ((c : Coupon) (b : AppliedCoupon)
        → Elem c coupons
        → Offers url_lib [] 1000000 brl c b
        → best.final_amount ≤ b.final_amount)
best_applicable_coupon_least_example =
    best_applicable_coupon_least url_lib [] 1000000 brl coupons chosen

none_chosen : best_applicable_coupon url_lib [] 10000 brl coupons ≡ none
unfolding best_applicable_coupon cheapest dedupe_priced_candidates is_coupon_applicable
    price_candidate is_derived_discount_still_valid calculate_final_price same_key same_text
none_chosen = refl

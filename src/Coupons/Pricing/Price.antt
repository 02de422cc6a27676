-- ===== src/Coupons/Pricing/Price.antt =====
-- The final price with one coupon.
use aishopping_agent.Common.{refl, sym, ℕ, ◌+◌, ◌*◌, ◌<◌, ◌≡◌, false, Option, none, some, arith}
use mathlib.Core.Path.{subst}
use aishopping_agent.Common.Int.{ℤ, pos, negsuc, ◌≤ℤ◌}
use aishopping_agent.Coupons.Pricing.{
  Coupon, fine, scale, min_ℤ, raw_discount, capped, below_minimum, settle, price_from, on_value,
  calculate_final_price,
}

some-injective : (a b : ℤ) → some a ≡ some b → a ≡ b
some-injective a b e = cc

trans_le : (a b c : ℤ) → a ≤ℤ b → b ≤ℤ c → a ≤ℤ c
trans_le a b c h k = omega arith

settle_bounds :
    (total : ℕ) (discount : ℤ) {d f : ℕ}
    → discount ≤ℤ pos total
    → settle total discount ≡ some (d, f)
    → (0 < d) × (d + f ≡ total) × (pos d ≡ discount)
unfolding settle
settle_bounds total (pos n) h e = ground arith
settle_bounds total (negsuc n) h e = cc

min_bounds : (a b : ℤ) → (min_ℤ a b ≤ℤ a) × (min_ℤ a b ≤ℤ b)
unfolding min_ℤ
min_bounds a b = ground arith

capped_bounds :
    (o : Option ℤ) (x : ℤ) → (capped o x ≤ℤ x) × ((m : ℤ) → o ≡ some m → capped o x ≤ℤ scale fine m)
unfolding capped
capped_bounds none x = (omega arith, λ m e. cc)
capped_bounds (some n) x = (
  (min_bounds x (scale fine n)).0,
  λ m e.
      subst (λ k. min_ℤ x (scale fine n) ≤ℤ scale fine k) (some-injective n m e)
        (min_bounds x (scale fine n)).1,
)

at_least :
    (o : Option ℤ) (reference : ℕ)
    → below_minimum o reference ≡ false
    → (m : ℤ) → o ≡ some m
    → m ≤ℤ pos reference
unfolding below_minimum
at_least none reference h m e = cc
at_least (some n) reference h m e =
    subst (λ k. k ≤ℤ pos reference) (some-injective n m e) (ground arith)

price_bounds :
    (c : Coupon) (reference : ℕ) (o : Option ℤ) {d f : ℕ}
    → price_from o c reference ≡ some (d, f)
    → (0 < d)
      × (d + f ≡ reference * fine)
      × ((raw : ℤ) × (o ≡ some raw) × (pos d ≤ℤ capped c.maximum_discount_amount raw))
unfolding price_from
price_bounds c reference none e = cc
price_bounds c reference (some raw) {d} {f} e =
    let x = capped c.maximum_discount_amount raw in
    let (by_cap, by_total) = min_bounds x (pos (reference * fine)) in
    let (positive, adds, same) =
      settle_bounds (reference * fine) (min_ℤ x (pos (reference * fine))) by_total e in
    (positive, adds, (raw, refl, subst (λ k. k ≤ℤ x) (sym same) by_cap))

priced_value :
    (c : Coupon) (reference : ℕ) (value : ℤ) {d f : ℕ}
    → on_value (some value) c reference ≡ some (d, f)
    → (below_minimum c.minimum_purchase_amount reference ≡ false)
      × (price_from (raw_discount c.discount_kind value reference) c reference ≡ some (d, f))
unfolding on_value
priced_value c reference value e = ground arith

-- A computed price is sound: the coupon has a known kind and a value, the purchase reaches the
-- minimum, the discount is positive, the discount and the final amount add up to the original one
-- (so the final amount is not negative), and the discount exceeds neither the cap of the coupon
-- nor what its kind and value say.
pub calculate_final_price_sound :
    (reference : ℕ) (c : Coupon) {discount final : ℕ}
    → calculate_final_price reference c ≡ some (discount, final)
    → (0 < discount)
      × (discount + final ≡ reference * fine)
      × ((m : ℤ) → c.maximum_discount_amount ≡ some m → pos discount ≤ℤ scale fine m)
      × ((m : ℤ) → c.minimum_purchase_amount ≡ some m → m ≤ℤ pos reference)
      × ((value : ℤ) × (raw : ℤ) × (c.discount_value ≡ some value)
          × (raw_discount c.discount_kind value reference ≡ some raw)
          × (pos discount ≤ℤ raw))
unfolding calculate_final_price
calculate_final_price_sound reference c {discount} {final} e = on_known c.discount_value refl e
  where
    on_known :
        (o : Option ℤ)
        → c.discount_value ≡ o
        → on_value o c reference ≡ some (discount, final)
        → (0 < discount)
          × (discount + final ≡ reference * fine)
          × ((m : ℤ) → c.maximum_discount_amount ≡ some m → pos discount ≤ℤ scale fine m)
          × ((m : ℤ) → c.minimum_purchase_amount ≡ some m → m ≤ℤ pos reference)
          × ((value : ℤ) × (raw : ℤ) × (c.discount_value ≡ some value)
              × (raw_discount c.discount_kind value reference ≡ some raw)
              × (pos discount ≤ℤ raw))
    on_known none known e = absurd (unfold on_value in cc)
    on_known (some value) known e =
        let (reaches, priced) = priced_value c reference value e in
        let (positive, adds, (raw, kind, cap_ok)) =
          price_bounds c reference (raw_discount c.discount_kind value reference) priced in
        let (below_raw, below_cap) = capped_bounds c.maximum_discount_amount raw in
        (
          positive,
          adds,
          λ m em.
              trans_le (pos discount) (capped c.maximum_discount_amount raw) (scale fine m) cap_ok
                (below_cap m em),
          at_least c.minimum_purchase_amount reference reaches,
          (
            value,
            raw,
            known,
            kind,
            trans_le (pos discount) (capped c.maximum_discount_amount raw) raw cap_ok below_raw,
          ),
        )

-- ===== src/Coupons.antt =====
-- backend/app/coupons: the price of an offer with a coupon.
pub mod Pricing

-- ===== src/Pricing/Bounds.antt =====
-- The bounds of a price, and what the rider is quoted and paid.
use fastmotion_delivery.Base.{ℕ, ◌+◌, ◌≤◌, ◌<◌, ◌≡◌, Option, none, some, arith, get_or}
use fastmotion_delivery.Base.Int.{pos, ◌+ℤ◌}
use fastmotion_delivery.Model.{PayoutConfig}
use fastmotion_delivery.Earnings.{round_rate, compute_rider_payout, config_rate, config_min}
use fastmotion_delivery.Pricing.Compute.{
  PricingInput, ResolvedCoupon, compute_delivery_pricing, discount_of, subtotal_of, clamped,
  raw_subtotal, increment, pre_multiplier_base,
}

discount-le : (c : Option ResolvedCoupon) (subtotal : ℕ) → discount_of c subtotal ≤ subtotal
unfolding discount_of
discount-le c subtotal = ground arith

-- No naira is lost or made: the total and the discount are the subtotal and the service fee; the
-- discount is at most the subtotal, so the total is the service fee at least.
pub total-balance :
    (i : PricingInput)
    → let b = compute_delivery_pricing i in
      (b.total_price + b.discount_amount ≡ b.subtotal + b.service_fee)
      × (b.discount_amount ≤ b.subtotal)
      × (b.service_fee ≤ b.total_price)
unfolding compute_delivery_pricing
total-balance i = let le = discount-le i.coupon (subtotal_of i) in (ground arith, le, ground arith)

-- Where a maximum is set that is not below the minimum, the subtotal lies between the two, the levy
-- added to each.
pub subtotal-bounds :
    (i : PricingInput) (m : ℕ)
    → i.config.maximum_delivery_fee ≡ some m
    → 0 < m
    → i.config.minimum_delivery_fee ≤ m
    → let b = compute_delivery_pricing i in
      let levy = get_or i.config.fct_development_levy 0 in
      (i.config.minimum_delivery_fee + levy ≤ b.subtotal) × (b.subtotal ≤ m + levy)
unfolding compute_delivery_pricing clamped
subtotal-bounds i m e z le = ground arith

increment-neutral : (amount : ℕ) → increment amount 10_000 ≡ pos 0
unfolding increment round_rate
increment-neutral amount = ground arith

-- Where no zone, time slot or category changes the price, the subtotal is the sum of the components,
-- clamped, and the levy.
pub subtotal-plain :
    (i : PricingInput)
    → i.pickup_zone ≡ none
    → i.time_pricing ≡ none
    → i.category_multiplier ≡ 10_000
    → (compute_delivery_pricing i).subtotal
      ≡ clamped i.config (pos (pre_multiplier_base i)) + get_or i.config.fct_development_levy 0
unfolding compute_delivery_pricing raw_subtotal ◌+ℤ◌
subtotal-plain i e f g = ground (arith, increment-neutral (pre_multiplier_base i))

-- The earnings that a quote shows are the payout that a completed delivery at the quoted price
-- credits, when the active configuration is the quoted one and sets the rider's rate.
pub quoted_is_paid :
    (i : PricingInput) (c : PayoutConfig) (rate : ℕ)
    → i.config.rider_commission_percentage ≡ some rate
    → c.rider_commission_percentage ≡ i.config.rider_commission_percentage
    → c.minimum_rider_payout ≡ i.config.minimum_rider_payout
    → let b = compute_delivery_pricing i in
      b.rider_earnings
      ≡ compute_rider_payout b.total_price (config_rate 7000 (some c)) (config_min (some c))
unfolding compute_delivery_pricing
quoted_is_paid i c rate e f g = ground arith

-- Where the configuration does not set the rate, the quote takes 80 % and the credit 70 %: from a
-- price of 150 naira on, without a minimum payout, the rider is paid less than was quoted.
pub quoted_exceeds_paid :
    (i : PricingInput) (c : PayoutConfig)
    → i.config.rider_commission_percentage ≡ none
    → c.rider_commission_percentage ≡ none
    → i.config.minimum_rider_payout ≡ none
    → c.minimum_rider_payout ≡ none
    → 150 ≤ (compute_delivery_pricing i).total_price
    → let b = compute_delivery_pricing i in
      compute_rider_payout b.total_price (config_rate 7000 (some c)) (config_min (some c))
      < b.rider_earnings
unfolding compute_delivery_pricing compute_rider_payout round_rate
quoted_exceeds_paid i c e f g h le = ground arith

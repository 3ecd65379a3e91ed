-- ===== src/Tests/PricingRuns.antt =====
-- The theorems on prices at concrete inputs.
use fastmotion_delivery.Base.{ℕ, ◌+◌, ◌≤◌, ◌≡◌, refl, Option, none, some, arith}
use fastmotion_delivery.Base.Int.{◌+ℤ◌, ◌-ℤ◌}
use fastmotion_delivery.Model.{PayoutConfig}
use fastmotion_delivery.Earnings.{round_rate}
use fastmotion_delivery.Pricing.{
  PricingConfig, PricingInput, CouponType, compute_delivery_pricing, clamped, raw_subtotal,
  service_fee_of, discount_of, increment,
}
use fastmotion_delivery.Pricing.Bounds.{total-balance, subtotal-bounds}

abbrev pricing_config : Option ℕ → PricingConfig
pricing_config rate = record {
  base_delivery_fee = 500;
  price_per_km = 100;
  minimum_delivery_fee = 600;
  maximum_delivery_fee = some 5000;
  inter_zone_multiplier = none;
  service_fee_percentage = some 500;
  minimum_service_fee = none;
  maximum_service_fee = none;
  fct_development_levy = some 40;
  size_fee = some 150;
  rider_commission_percentage = rate;
  minimum_rider_payout = none;
}

-- A trip of 7.5 km with a coupon of 10 %.
abbrev trip : Option ℕ → PricingInput
trip rate = record {
  distance = 7500;
  config = pricing_config rate;
  pickup_zone = none;
  dropoff_zone = none;
  time_pricing = none;
  category_multiplier = 12_000;
  category_additional_fee = 0;
  handling_total_fee = 100;
  coupon =
      some (record { type = CouponType.percentage; value = 10; max_discount_amount = some 200 });
}

abbrev payout_config : Option ℕ → PayoutConfig
payout_config rate = record {
  rider_commission_percentage = rate;
  minimum_rider_payout = none;
  cancellation_fee_before_accept = none;
  cancellation_fee_after_accept = none;
  cancellation_fee_after_pickup_percentage = none;
}

total-balance_example :
    let b = compute_delivery_pricing (trip none) in
    (b.total_price + b.discount_amount ≡ b.subtotal + b.service_fee)
    × (b.discount_amount ≤ b.subtotal)
    × (b.service_fee ≤ b.total_price)
total-balance_example = total-balance (trip none)

subtotal-bounds_example :
    let b = compute_delivery_pricing (trip none) in
    (600 + 40 ≤ b.subtotal) × (b.subtotal ≤ 5000 + 40)
subtotal-bounds_example = subtotal-bounds (trip none) 5000 refl (ground arith) (ground arith)

trip-price : 150 ≤ (compute_delivery_pricing (trip none)).total_price
unfolding compute_delivery_pricing clamped raw_subtotal service_fee_of discount_of increment
    round_rate ◌+ℤ◌ ◌-ℤ◌
trip-price = ground arith

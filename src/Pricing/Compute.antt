-- ===== src/Pricing/Compute.antt =====
-- libs/common/src/utils/delivery-pricing.util.ts: `computeDeliveryPricing`. Money is in whole naira,
-- rates and multipliers in ten-thousandths, distances in metres, percentages of coupons in percent.
use fastmotion_delivery.Base.{
  ℕ, ◌+◌, ◌-◌, ◌*◌, ◌/◌, Bool, false, not, Option, none, some, max, min, get_or, leb, ◌==◌,
  if◌then◌else◌,
}
use fastmotion_delivery.Base.Int.{ℤ, pos, ◌+ℤ◌, ◌-ℤ◌, pos_part, max_ℤ}
use fastmotion_delivery.Earnings.{round_rate, compute_rider_payout}

-- `DeliveryPricingConfig`; `size_fee` is `sizeFees?.[parcelSize]` for the size of the parcel.
pub record PricingConfig : Type 0 where
  pub base_delivery_fee : ℕ
  pub price_per_km : ℕ
  pub minimum_delivery_fee : ℕ
  pub maximum_delivery_fee : Option ℕ
  pub inter_zone_multiplier : Option ℕ
  pub service_fee_percentage : Option ℕ
  pub minimum_service_fee : Option ℕ
  pub maximum_service_fee : Option ℕ
  pub fct_development_levy : Option ℕ
  pub size_fee : Option ℕ
  pub rider_commission_percentage : Option ℕ
  pub minimum_rider_payout : Option ℕ

pub record ResolvedZone : Type 0 where
  pub id : ℕ
  pub price_multiplier : Option ℕ

pub record ResolvedTimePricing : Type 0 where
  pub price_multiplier : Option ℕ
  pub additional_fee : Option ℕ

pub data CouponType : Type 0 where
  percentage fixed : CouponType

pub record ResolvedCoupon : Type 0 where
  pub type : CouponType
  pub value : ℕ
  pub max_discount_amount : Option ℕ

pub record PricingInput : Type 0 where
  pub distance : ℕ
  pub config : PricingConfig
  pub pickup_zone : Option ResolvedZone
  pub dropoff_zone : Option ResolvedZone
  pub time_pricing : Option ResolvedTimePricing
  pub category_multiplier : ℕ
  pub category_additional_fee : ℕ
  pub handling_total_fee : ℕ
  pub coupon : Option ResolvedCoupon

-- The components of `DeliveryPricingBreakdown` that are computed.
pub record Breakdown : Type 0 where
  pub base_price : ℕ
  pub distance_price : ℕ
  pub time_price : ℕ
  pub size_fee : ℕ
  pub category_multiplier_price : ℤ
  pub zone_multiplier_price : ℤ
  pub time_multiplier_price : ℤ
  pub inter_zone_multiplier_price : ℤ
  pub service_fee : ℕ
  pub discount_amount : ℕ
  pub subtotal : ℕ
  pub total_price : ℕ
  pub rider_earnings : ℕ

-- `isInterZone`
abbrev pub is_inter_zone : Option ResolvedZone → Option ResolvedZone → Bool
is_inter_zone (some p) (some d) = not (p.id == d.id)
is_inter_zone _ _ = false

abbrev pub zone_multiplier : Option ResolvedZone → ℕ
zone_multiplier none = 10_000
zone_multiplier (some z) = get_or z.price_multiplier 10_000

abbrev pub time_multiplier : Option ResolvedTimePricing → ℕ
time_multiplier none = 10_000
time_multiplier (some t) = get_or t.price_multiplier 10_000

abbrev pub time_fee : Option ResolvedTimePricing → ℕ
time_fee none = 0
time_fee (some t) = get_or t.additional_fee 0

abbrev pub inter_zone_multiplier_of : PricingInput → ℕ
inter_zone_multiplier_of i =
    if is_inter_zone i.pickup_zone i.dropoff_zone
    then get_or i.config.inter_zone_multiplier 10_000
    else 10_000

-- `Math.round(amount * (multiplier - 1))`, where a half is rounded up, of a discount as well.
unfoldable pub increment : (amount multiplier : ℕ) → ℤ
increment amount multiplier =
    if leb 10_000 multiplier
    then pos (round_rate amount (multiplier - 10_000))
    else pos 0 -ℤ pos ((amount * (10_000 - multiplier) + 4999) / 10_000)

-- `Math.round(distance * pricePerKm)`
abbrev pub distance_price_of : PricingInput → ℕ
distance_price_of i = (i.distance * i.config.price_per_km + 500) / 1000

-- `dpreMultiplierBase`
abbrev pub distance_base : PricingInput → ℕ
distance_base i = i.config.base_delivery_fee + distance_price_of i

-- `preMultiplierBase`
abbrev pub pre_multiplier_base : PricingInput → ℕ
pre_multiplier_base i =
    distance_base i
    + time_fee i.time_pricing
    + get_or i.config.size_fee 0
    + i.category_additional_fee
    + i.handling_total_fee

-- The subtotal before the clamps.
unfoldable pub raw_subtotal : PricingInput → ℤ
raw_subtotal i =
    let pre = pre_multiplier_base i in
    pos pre
    +ℤ increment pre i.category_multiplier
    +ℤ increment pre (zone_multiplier i.pickup_zone)
    +ℤ increment pre (time_multiplier i.time_pricing)
    +ℤ increment pre (inter_zone_multiplier_of i)

-- `if (m) x = Math.min(x, m)`
abbrev pub cap : Option ℕ → ℕ → ℕ
cap none x = x
cap (some m) x = if m == 0 then x else min x m

-- The clamp to the minimum and the maximum; the minimum is not negative.
unfoldable pub clamped : PricingConfig → ℤ → ℕ
clamped c z = cap c.maximum_delivery_fee (pos_part (max_ℤ z (pos c.minimum_delivery_fee)))

-- The subtotal with the levy.
abbrev pub subtotal_of : PricingInput → ℕ
subtotal_of i = clamped i.config (raw_subtotal i) + get_or i.config.fct_development_levy 0

unfoldable pub service_fee_of : PricingInput → ℕ
service_fee_of i = cap i.config.maximum_service_fee (
    max (round_rate (distance_base i) (get_or i.config.service_fee_percentage 0))
      (get_or i.config.minimum_service_fee 0))

abbrev pub coupon_amount : ResolvedCoupon → ℕ → ℕ
coupon_amount c subtotal = elim c.type [
  | CouponType.percentage ↦ cap c.max_discount_amount ((subtotal * c.value + 50) / 100)
  | CouponType.fixed ↦ c.value
]

unfoldable pub discount_of : Option ResolvedCoupon → ℕ → ℕ
discount_of none subtotal = 0
discount_of (some c) subtotal = min (coupon_amount c subtotal) subtotal

-- `subtotal + serviceFee - discountAmount`; the discount is at most the subtotal.
abbrev pub total_of : PricingInput → ℕ
total_of i =
    let subtotal = subtotal_of i in subtotal + service_fee_of i - discount_of i.coupon subtotal

-- `computeDeliveryPricing`
unfoldable pub compute_delivery_pricing : PricingInput → Breakdown
compute_delivery_pricing i =
    let pre = pre_multiplier_base i in
    record {
      base_price = i.config.base_delivery_fee;
      distance_price = distance_price_of i;
      time_price = time_fee i.time_pricing;
      size_fee = get_or i.config.size_fee 0;
      category_multiplier_price = increment pre i.category_multiplier;
      zone_multiplier_price = increment pre (zone_multiplier i.pickup_zone);
      time_multiplier_price = increment pre (time_multiplier i.time_pricing);
      inter_zone_multiplier_price = increment pre (inter_zone_multiplier_of i);
      service_fee = service_fee_of i;
      discount_amount = discount_of i.coupon (subtotal_of i);
      subtotal = subtotal_of i;
      total_price = total_of i;
      rider_earnings =
          compute_rider_payout (total_of i) (get_or i.config.rider_commission_percentage 8000)
            (get_or i.config.minimum_rider_payout 100);
    }

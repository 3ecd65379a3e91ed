-- ===== src/Customer/Quoting.antt =====
-- apps/user-api/src/delivery/delivery.service.ts: `calculatePricing`. In an order,
-- `size` and `category` are those of the request, or `medium` and `other`.
use fastmotion_delivery.Base.{ℕ, Option, none, some, List, ◌==◌, if◌then◌else◌, get_or}
use fastmotion_delivery.Model.{DeliveryType, Handler, HttpError, pure, some_or, ◌>>=◌}
use fastmotion_delivery.Pricing.{
  PricingConfig, PricingInput, ResolvedZone, ResolvedTimePricing, ResolvedCoupon, Breakdown,
  compute_delivery_pricing, time_multiplier,
}
use fastmotion_delivery.Customer.Queries.{
  World, Catalogue, LocationZone, TimePricing, Coupon, find_zone_by_coordinates, find_time_pricing,
  find_category_by_slug, handling_fee, find_coupon_by_code, estimate_duration,
}

-- `paymentMethod` of the request; `other` is any text that the code does not compare with.
pub data OrderMethod : Type 0 where
  wallet card bank_transfer pay_at_pickup other : OrderMethod

-- The fields of `CreateDeliveryRequestDto` that the price and the status depend on.
pub record Order : Type 0 where
  pub delivery_type : DeliveryType
  pub scheduled_pickup_time : Option ℕ
  pub pickup : ℕ
  pub dropoff : ℕ
  pub estimated_distance : Option ℕ
  pub estimated_duration : Option ℕ
  pub size : ℕ
  pub category : ℕ
  pub special_handling : List ℕ
  pub coupon_code : Option ℕ
  pub payment_method : Option OrderMethod
  pub payment_reference : Option ℕ

-- `x && x > 0 ? x : y`
abbrev pub positive_or : Option ℕ → ℕ → ℕ
positive_or none y = y
positive_or (some x) y = if x == 0 then y else x

-- `x || y`
abbrev pub truthy_or : Option ℕ → Option ℕ → Option ℕ
truthy_or none y = y
truthy_or (some x) y = if x == 0 then y else some x

abbrev pub distance_of : World → Order → ℕ
distance_of w o = positive_or o.estimated_distance (w.between o.pickup o.dropoff)

abbrev pub resolved_zone : LocationZone → ResolvedZone
resolved_zone z = record { id = z.id; price_multiplier = z.price_multiplier }

abbrev pub resolved_time : TimePricing → ResolvedTimePricing
resolved_time t = record {
  price_multiplier = some t.price_multiplier;
  additional_fee = t.additional_fee;
}

abbrev pub resolved_coupon : Coupon → ResolvedCoupon
resolved_coupon c = record {
  type = c.type;
  value = c.value;
  max_discount_amount = c.max_discount_amount;
}

module _ {A B : Type 0} where
  abbrev pub map_option : (A → B) → Option A → Option B
  map_option f none = none
  map_option f (some a) = some (f a)

abbrev pub category_multiplier_of : Catalogue → ℕ → ℕ
category_multiplier_of cat slug =
    let doc : Option ℕ = elim (find_category_by_slug slug cat.categories) [
      | none ↦ none
      | some c ↦ c.price_multiplier
    ] in
    get_or (truthy_or doc (truthy_or (cat.category_multipliers slug) none)) 10_000

abbrev pub category_fee_of : Catalogue → ℕ → ℕ
category_fee_of cat slug = elim (find_category_by_slug slug cat.categories) [
  | none ↦ 0
  | some c ↦ get_or c.additional_fee 0
]

abbrev pub coupon_of : Catalogue → (code : Option ℕ) (now : ℕ) → Option Coupon
coupon_of cat none now = none
coupon_of cat (some code) now = find_coupon_by_code code now cat.coupons

-- The input of `computeDeliveryPricing`.
unfoldable pub pricing_input : World → Catalogue → (now : ℕ) → PricingConfig → Order → PricingInput
pricing_input w cat now config o = record {
  distance = distance_of w o;
  config = record config { size_fee = cat.size_fees o.size };
  pickup_zone = map_option resolved_zone (find_zone_by_coordinates w o.pickup cat.zones);
  dropoff_zone = map_option resolved_zone (find_zone_by_coordinates w o.dropoff cat.zones);
  time_pricing =
      map_option resolved_time
        (find_time_pricing w (get_or o.scheduled_pickup_time now) cat.time_pricings);
  category_multiplier = category_multiplier_of cat o.category;
  category_additional_fee = category_fee_of cat o.category;
  handling_total_fee = handling_fee o.special_handling cat.handling;
  coupon = map_option resolved_coupon (coupon_of cat o.coupon_code now);
}

pub record Quote : Type 0 where
  pub breakdown : Breakdown
  pub time_multiplier : ℕ
  pub estimated_distance : ℕ
  pub estimated_duration : ℕ

abbrev pub quote_of : World → PricingInput → Order → Quote
quote_of w i o = record {
  breakdown = compute_delivery_pricing i;
  time_multiplier = time_multiplier i.time_pricing;
  estimated_distance = distance_of w o;
  estimated_duration = positive_or o.estimated_duration (estimate_duration (distance_of w o));
}

-- `calculatePricing`, and `getDeliveryEstimate`, which shows its result
unfoldable pub calculate_pricing : World → Catalogue → (now : ℕ) → Order → Handler Quote
calculate_pricing w cat now o = do
  config ← some_or cat.config HttpError.bad_request
  pure (quote_of w (pricing_input w cat now config o) o)

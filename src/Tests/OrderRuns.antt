-- ===== src/Tests/OrderRuns.antt =====
-- The theorems on orders, times and zones at concrete states.
use fastmotion_delivery.Base.{ℕ, ◌≡◌, refl, true, Option, none, some, List, [], ◌∷◌}
use fastmotion_delivery.Base.Int.{pos}
use fastmotion_delivery.Base.Dict.{lookup}
use fastmotion_delivery.Model.{Db, Delivery, DeliveryStatus, DeliveryType, PaymentStatus, Purpose}
use fastmotion_delivery.Payment.{payment_success}
use fastmotion_delivery.Pricing.{Breakdown}
use fastmotion_delivery.Customer.{Order, OrderMethod, Quote, World, LocationZone, place_order}
use fastmotion_delivery.Customer.Orders.{order_becomes_delivery}
use fastmotion_delivery.Tests.Data.{delivery_doc, with_delivery, payment_doc, empty_db}
use DeliveryStatus.{payment_confirmed}

abbrev breakdown : Breakdown
breakdown = record {
  base_price = 500;
  distance_price = 400;
  time_price = 0;
  size_fee = 0;
  category_multiplier_price = pos 0;
  zone_multiplier_price = pos 0;
  time_multiplier_price = pos 0;
  inter_zone_multiplier_price = pos 0;
  service_fee = 100;
  discount_amount = 0;
  subtotal = 900;
  total_price = 1000;
  rider_earnings = 800;
}

abbrev quote : Quote
quote = record {
  breakdown = breakdown;
  time_multiplier = 10_000;
  estimated_distance = 4000;
  estimated_duration = 8;
}

abbrev order_by : DeliveryType → Option OrderMethod → Order
order_by type method = record {
  delivery_type = type;
  scheduled_pickup_time = some 90;
  pickup = 1;
  dropoff = 2;
  estimated_distance = some 4000;
  estimated_duration = none;
  size = 0;
  category = 0;
  special_handling = [];
  coupon_code = none;
  payment_method = method;
  payment_reference = none;
}

abbrev card_order : Order
card_order = order_by DeliveryType.quick (some OrderMethod.card)

-- A payment of reference 11 is recorded for the delivery 5, which is not stored yet.
abbrev ordering_db : Db
ordering_db = record empty_db {
  payments = (11, payment_doc (some 5) PaymentStatus.pending Purpose.delivery_payment) ∷ [];
}

order_becomes_delivery_example :
    let t = (place_order 30 5 card_order quote ordering_db).1 in
    let u = (payment_success 11 1111 2222 1000 20 t).1 in
    (t.deliveries ≡ ordering_db.deliveries)
    × ((d : Delivery) × (lookup 5 u.deliveries ≡ some d)
        × (d.customer ≡ 30)
        × (d.rider ≡ none)
        × (d.total_price ≡ quote.breakdown.total_price)
        × (d.service_fee ≡ quote.breakdown.service_fee)
        × (d.delivery_type ≡ DeliveryType.quick)
        × (d.status ≡ payment_confirmed)
        × (d.payment_status ≡ PaymentStatus.paid)
        × (d.pickup_pin ≡ some 1111)
        × (d.delivery_pin ≡ some 2222))
    × (lookup 5 u.pending_deliveries ≡ none)
unfolding lookup
order_becomes_delivery_example =
    order_becomes_delivery 30 5 11 1111 2222 1000 20 card_order quote
      (payment_doc (some 5) PaymentStatus.pending Purpose.delivery_payment) ordering_db refl refl
      refl refl refl

abbrev door_order : Order
door_order = order_by DeliveryType.quick (some OrderMethod.pay_at_pickup)

abbrev scheduled_doc : Delivery
scheduled_doc = record (delivery_doc DeliveryStatus.scheduled none PaymentStatus.paid) {
  time_multiplier = some 10_000;
}

abbrev scheduled_db : Db
scheduled_db = with_delivery scheduled_doc

abbrev zone : (id priority radius : ℕ) → LocationZone
zone id priority radius = record {
  id = id;
  is_active = true;
  priority = priority;
  radius = some radius;
  price_multiplier = none;
}

abbrev zones : List LocationZone
zones = zone 1 10 5000 ∷ zone 2 30 2000 ∷ zone 3 20 9000 ∷ []

-- The place is 4 km from each zone's centre.
abbrev world : World
world = record {
  between = λ p d. 4000;
  to_zone = λ p z. 4000;
  day_of_week = λ t. 1;
  time_of_day = λ t. 600;
}

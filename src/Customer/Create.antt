-- ===== src/Customer/Create.antt =====
-- apps/user-api/src/delivery/delivery.service.ts: `createDeliveryRequest`. `id` is the object id that
-- it generates.
use fastmotion_delivery.Base.{
  ℕ, Bool, true, false, not, ◌&&◌, ◌||◌, Option, none, some, List, [], ◌∷◌, ◌++◌, if◌then◌else◌,
  is_some,
}
use fastmotion_delivery.Base.Dict.{put}
use fastmotion_delivery.Model.{
  Delivery, DeliveryStatus, PaymentStatus, PendingDelivery, Handler, HttpError, Event, ⊤, pure,
  require, modify, send, is_quick, is_status, ◌>>=◌, ◌>>◌,
}
use fastmotion_delivery.Customer.Queries.{World, Catalogue}
use fastmotion_delivery.Customer.Cancel.{send_all}
use fastmotion_delivery.Customer.Quoting.{Order, OrderMethod, Quote, calculate_pricing}

-- `isCardOrBank`, of a quick delivery
abbrev pub is_card_or_bank : Option OrderMethod → (has_reference : Bool) → Bool
is_card_or_bank (some OrderMethod.card) ref = true
is_card_or_bank (some OrderMethod.bank_transfer) ref = true
is_card_or_bank (some _) ref = false
is_card_or_bank none ref = not ref

abbrev pub is_pay_at_pickup : Option OrderMethod → Bool
is_pay_at_pickup (some OrderMethod.pay_at_pickup) = true
is_pay_at_pickup _ = false

-- The order waits in Redis for its payment.
abbrev pub waits_for_payment : Order → Bool
waits_for_payment o =
    is_quick o.delivery_type
    && (is_card_or_bank o.payment_method (is_some o.payment_reference)
        && not (is_some o.payment_reference))

-- `initialStatus`
unfoldable pub initial_status : Order → DeliveryStatus
initial_status o =
    if not (is_quick o.delivery_type)
    then (if is_some o.payment_reference then DeliveryStatus.scheduled else DeliveryStatus.pending)
    else if is_pay_at_pickup o.payment_method
    then DeliveryStatus.searching_rider
    else if is_some o.payment_reference
    then DeliveryStatus.searching_rider
    else DeliveryStatus.pending

abbrev pub initial_payment_status : Order → PaymentStatus
initial_payment_status o =
    if is_quick o.delivery_type || not (is_some o.payment_reference)
    then PaymentStatus.pending
    else PaymentStatus.paid

abbrev pub pending_of : (user : ℕ) → Order → Quote → PendingDelivery
pending_of user o q = record {
  user_id = user;
  delivery_type = o.delivery_type;
  total_price = q.breakdown.total_price;
  service_fee = q.breakdown.service_fee;
  time_multiplier = some q.time_multiplier;
}

abbrev pub delivery_of : (user : ℕ) → Order → Quote → Delivery
delivery_of user o q = record {
  customer = user;
  rider = none;
  delivery_type = o.delivery_type;
  status = initial_status o;
  total_price = q.breakdown.total_price;
  service_fee = q.breakdown.service_fee;
  time_multiplier = some q.time_multiplier;
  payment_status = initial_payment_status o;
  scheduled_pickup_time = o.scheduled_pickup_time;
  pickup_pin = none;
  delivery_pin = none;
  pickup_pin_verified = false;
  delivery_pin_verified = false;
  pickup_pin_overridden = false;
  delivery_pin_overridden = false;
  rider_accepted_at = none;
  rider_assigned_at = none;
  arrived_at_pickup_at = none;
  picked_up_at = none;
  arrived_at_dropoff_at = none;
  delivered_at = none;
  completed_at = none;
  cancelled_at = none;
  payment_requested_at = none;
  can_reschedule = true;
  payment_required_at_pickup = is_pay_at_pickup o.payment_method;
  reschedule_count = 0;
  is_rated = false;
  has_dispute = false;
}

-- `pendingDeliveryRedis.cache`; the expiry after 30 minutes is not modelled.
abbrev pub cache_order : (user id : ℕ) → Order → Quote → Handler ⊤
cache_order user id o q =
    modify λ s. record s { pending_deliveries = put id (pending_of user o q) s.pending_deliveries }

-- The event that starts a search or announces a scheduled delivery.
abbrev pub created_events : (id : ℕ) → Order → List Event
created_events id o =
    if is_quick o.delivery_type && is_status (initial_status o) DeliveryStatus.searching_rider
    then Event.created_quick id ∷ []
    else if not (is_quick o.delivery_type)
    then Event.created_scheduled id ∷ []
    else []

-- From `deliveryRepository.create` on.
unfoldable pub store_order : (user id : ℕ) → Order → Quote → Handler ⊤
store_order user id o q = do
  modify (λ s. record s { deliveries = s.deliveries ++ ((id, delivery_of user o q) ∷ []) })
  send_all (created_events id o)
  send (Event.status_update id (initial_status o))
  send (Event.push_customer user)

-- What follows the calculation of the price, which is the result that the customer is told.
unfoldable pub place_order : (user id : ℕ) → Order → Quote → Handler ℕ
place_order user id o q = do
  require (is_quick o.delivery_type || is_some o.scheduled_pickup_time) HttpError.bad_request
  if waits_for_payment o then cache_order user id o q else store_order user id o q
  pure q.breakdown.total_price

-- `createDeliveryRequest`
unfoldable pub create_delivery_request : World → Catalogue → (user id now : ℕ) → Order → Handler ℕ
create_delivery_request w cat user id now o = do
  q ← calculate_pricing w cat now o
  place_order user id o q

-- ===== src/Customer/Pickup.antt =====
-- apps/user-api/src/delivery/delivery.service.ts: the PINs that a customer is shown, the payment at
-- pickup, and the restart of a search.
use fastmotion_delivery.Base.{ℕ, not, Option, some, List, [], ◌∷◌, ◌==◌}
use fastmotion_delivery.Model.{
  Delivery, DeliveryStatus, Handler, HttpError, Event, ⊤, pure, require, send, update_delivery,
  find_delivery_with_pins, includes, is_paid, is_quick, is_status, ◌>>=◌, ◌>>◌,
}
use fastmotion_delivery.Customer.Cancel.{own_delivery}
use fastmotion_delivery.Payment.{marked_paid}
use DeliveryStatus.{
  pending, searching_rider, rider_accepted, rider_assigned, rider_en_route_pickup,
  rider_arrived_pickup, awaiting_payment, payment_confirmed, in_transit, rider_arrived_dropoff,
  delivery_in_progress,
}

-- `findByIdWithPins`, and the test that the delivery is the user's
unfoldable pub own_delivery_with_pins : (user id : ℕ) → Handler Delivery
own_delivery_with_pins user id = do
  d ← find_delivery_with_pins id
  require (d.customer == user) HttpError.forbidden
  pure d

-- `invalidStatuses`
abbrev pub before_pickup_statuses : List DeliveryStatus
before_pickup_statuses =
    pending ∷ searching_rider ∷ rider_accepted ∷ rider_assigned ∷ rider_en_route_pickup ∷ []

-- `getPickupPin`
unfoldable pub get_pickup_pin : (user id : ℕ) → Handler (Option ℕ)
get_pickup_pin user id = do
  d ← own_delivery_with_pins user id
  require (is_paid d.payment_status) HttpError.bad_request
  require (not (includes d.status before_pickup_statuses)) HttpError.bad_request
  pure d.pickup_pin

-- `validStatuses`
abbrev pub under_way_statuses : List DeliveryStatus
under_way_statuses = in_transit ∷ rider_arrived_dropoff ∷ delivery_in_progress ∷ []

-- `getDeliveryPin`
unfoldable pub get_delivery_pin : (user id : ℕ) → Handler (Option ℕ)
get_delivery_pin user id = do
  d ← own_delivery_with_pins user id
  require (includes d.status under_way_statuses) HttpError.bad_request
  pure d.delivery_pin

abbrev pub payment_asked : ℕ → Delivery → Delivery
payment_asked now d = record d { payment_requested_at = some now; status = awaiting_payment }

-- `initiatePickupPayment`; the result is the amount.
unfoldable pub initiate_pickup_payment : (user id now : ℕ) → Handler ℕ
initiate_pickup_payment user id now = do
  d ← own_delivery user id
  require (is_quick d.delivery_type) HttpError.bad_request
  require (is_status d.status rider_arrived_pickup) HttpError.bad_request
  require (not (is_paid d.payment_status)) HttpError.bad_request
  update_delivery id (payment_asked now)
  send (Event.status_update id awaiting_payment)
  send (Event.payment_initiate id user d.total_price)
  pure d.total_price

-- `confirmPickupPayment`; `pickup` and `pin` are the PINs that it generates, and the result is the
-- first of them.
unfoldable pub confirm_pickup_payment : (user id pickup pin : ℕ) → Handler ℕ
confirm_pickup_payment user id pickup pin = do
  d ← own_delivery user id
  require (is_status d.status awaiting_payment) HttpError.bad_request
  update_delivery id (marked_paid payment_confirmed pickup pin)
  send (Event.status_update id payment_confirmed)
  send (Event.system_chat id)
  send (Event.payment_confirmed id)
  pure pickup

-- `retryRiderMatching`
unfoldable pub retry_rider_matching : (user id : ℕ) → Handler ⊤
retry_rider_matching user id = do
  d ← own_delivery user id
  require (is_paid d.payment_status) HttpError.bad_request
  require (is_status d.status searching_rider) HttpError.bad_request
  send (Event.created_quick id)

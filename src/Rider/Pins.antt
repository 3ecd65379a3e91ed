-- ===== src/Rider/Pins.antt =====
-- `verifyPickupPin` and `verifyDeliveryPin`. The second one ends the delivery and credits the rider.
use fastmotion_delivery.Base.{ℕ, Bool, true, not, ◌&&◌, some, List, [], ◌∷◌, ◌==◌}
use fastmotion_delivery.Base.Dict.{count}
use fastmotion_delivery.Model.{
  DeliveryStatus, Delivery, Handler, HttpError, Event, ⊤, gets, some_or, require, when, send,
  update_delivery, update_rider, find_delivery_with_pins, includes, ◌>>=◌, ◌>>◌,
}
use fastmotion_delivery.Earnings.{credit_delivery_earnings}
use fastmotion_delivery.Rider.Accept.{is_rider}
use fastmotion_delivery.Rider.Progress.{delivered_one, made_available}
use DeliveryStatus.{
  rider_arrived_pickup, payment_confirmed, pickup_in_progress, in_transit, rider_arrived_dropoff,
  delivery_in_progress, delivered, completed, cancelled, failed,
}

abbrev pub pickup_pin_checked : Delivery → Delivery
pickup_pin_checked d = record d { pickup_pin_verified = true; status = pickup_in_progress }

abbrev pub pickup_pin_statuses : List DeliveryStatus
pickup_pin_statuses = rider_arrived_pickup ∷ payment_confirmed ∷ pickup_in_progress ∷ []

-- `verifyPickupPin`
unfoldable pub verify_pickup_pin : (rider id pin : ℕ) → Handler ⊤
verify_pickup_pin rider id pin = do
  d ← find_delivery_with_pins id
  require (is_rider d.rider rider) HttpError.forbidden
  require (includes d.status pickup_pin_statuses) HttpError.bad_request
  expected ← some_or d.pickup_pin HttpError.bad_request
  require (pin == expected) HttpError.bad_request
  update_delivery id pickup_pin_checked
  send (Event.status_update id pickup_in_progress)
  send (Event.system_chat id)

abbrev pub handed_over : ℕ → Delivery → Delivery
handed_over now d = record d {
  delivery_pin_verified = true;
  status = delivered;
  delivered_at = some now;
  completed_at = some now;
}

abbrev pub delivery_pin_statuses : List DeliveryStatus
delivery_pin_statuses = in_transit ∷ rider_arrived_dropoff ∷ delivery_in_progress ∷ []

-- Another delivery of the rider that has not ended.
abbrev pub counts_open : (rider id : ℕ) → ℕ → Delivery → Bool
counts_open rider id k d =
    is_rider d.rider rider
    && (not (k == id) && not (includes d.status (delivered ∷ completed ∷ cancelled ∷ failed ∷ [])))

-- The writes to the rider, up to the credit.
unfoldable pub free_rider : (rider id : ℕ) → Handler ⊤
free_rider rider id = do
  update_rider rider delivered_one
  active ← gets (λ s. count (counts_open rider id) s.deliveries)
  when (active == 0) (update_rider rider made_available)

-- `verifyDeliveryPin`; `new_id` is the id of the earning that the credit creates.
unfoldable pub verify_delivery_pin : (rider id pin now new_id : ℕ) → Handler ⊤
verify_delivery_pin rider id pin now new_id = do
  d ← find_delivery_with_pins id
  require (is_rider d.rider rider) HttpError.forbidden
  require (includes d.status delivery_pin_statuses) HttpError.bad_request
  expected ← some_or d.delivery_pin HttpError.bad_request
  require (pin == expected) HttpError.bad_request
  update_delivery id (handed_over now)
  free_rider rider id
  credit_delivery_earnings rider id new_id
  send (Event.status_update id delivered)
  send (Event.system_chat id)
  send (Event.push_customer d.customer)

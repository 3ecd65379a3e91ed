-- ===== src/Rider/Progress.antt =====
-- `updateDeliveryStatus`, `arrivedAtPickup`, `arrivedAtDropoff` and `toggleOnlineStatus`.
use fastmotion_delivery.Base.{
  ℕ, ◌+◌, ◌*◌, ◌/◌, Bool, false, not, ◌&&◌, ◌||◌, Option, some, List, [], ◌∷◌, leb, is_some,
  if◌then◌else◌,
}
use fastmotion_delivery.Base.Int.{pos, ◌-ℤ◌, ltb_ℤ}
use fastmotion_delivery.Base.Dict.{count}
use fastmotion_delivery.Model.{
  DeliveryStatus, RiderStatus, Delivery, Rider, Handler, HttpError, Event, ⊤, pure, gets, require,
  when, send, update_delivery, update_rider, find_delivery, includes, is_status, is_paid, is_quick,
  ◌>>=◌, ◌>>◌,
}
use fastmotion_delivery.Rider.Accept.{is_rider}
use DeliveryStatus.{
  rider_accepted, rider_assigned, rider_en_route_pickup, rider_arrived_pickup, awaiting_payment,
  payment_confirmed, pickup_in_progress, picked_up, in_transit, rider_arrived_dropoff,
  delivery_in_progress, delivered, completed, cancelled,
}

-- `VALID_TRANSITIONS[s] || []`
abbrev pub valid_transitions : DeliveryStatus → List DeliveryStatus
valid_transitions rider_accepted = rider_en_route_pickup ∷ []
valid_transitions rider_assigned = rider_en_route_pickup ∷ []
valid_transitions rider_en_route_pickup = rider_arrived_pickup ∷ []
valid_transitions rider_arrived_pickup = awaiting_payment ∷ pickup_in_progress ∷ []
valid_transitions payment_confirmed = pickup_in_progress ∷ []
valid_transitions pickup_in_progress = picked_up ∷ []
valid_transitions picked_up = in_transit ∷ []
valid_transitions in_transit = rider_arrived_dropoff ∷ []
valid_transitions rider_arrived_dropoff = delivery_in_progress ∷ []
valid_transitions delivery_in_progress = delivered ∷ []
valid_transitions delivered = completed ∷ []
valid_transitions _ = []

-- `STATUS_LABELS[s]` is a text
abbrev pub has_label : DeliveryStatus → Bool
has_label s = includes s (
    rider_accepted ∷ rider_en_route_pickup ∷ rider_arrived_pickup ∷ awaiting_payment
    ∷ payment_confirmed ∷ pickup_in_progress ∷ picked_up ∷ in_transit ∷ rider_arrived_dropoff
    ∷ delivery_in_progress ∷ delivered ∷ completed ∷ cancelled ∷ [])

-- `CUSTOMER_NOTIF_MAP[s]` is a notification
abbrev pub has_notification : DeliveryStatus → Bool
has_notification s = includes s (
    rider_en_route_pickup ∷ pickup_in_progress ∷ picked_up ∷ in_transit ∷ delivery_in_progress ∷ [])

-- The dates and flags that go with a new status.
abbrev pub stamped : DeliveryStatus → ℕ → Delivery → Delivery
stamped rider_arrived_pickup now d = record d {
  arrived_at_pickup_at = some now;
  can_reschedule = false;
}
stamped picked_up now d = record d { picked_up_at = some now }
stamped rider_arrived_dropoff now d = record d { arrived_at_dropoff_at = some now }
stamped delivered now d = record d { delivered_at = some now }
stamped completed now d = record d { completed_at = some now }
stamped _ now d = d

abbrev pub moved_to : DeliveryStatus → ℕ → Delivery → Delivery
moved_to new now d = let e = stamped new now d in record e { status = new }

-- The statuses that the query at the end of a delivery counts as active.
abbrev pub active_statuses : List DeliveryStatus
active_statuses =
    rider_accepted ∷ rider_en_route_pickup ∷ rider_arrived_pickup ∷ awaiting_payment
    ∷ payment_confirmed ∷ pickup_in_progress ∷ picked_up ∷ in_transit ∷ rider_arrived_dropoff
    ∷ delivery_in_progress ∷ []

abbrev pub counts_active : ℕ → ℕ → Delivery → Bool
counts_active rider _ d = is_rider d.rider rider && includes d.status active_statuses

abbrev pub delivered_one : Rider → Rider
delivered_one r = record r {
  current_delivery_count = r.current_delivery_count -ℤ pos 1;
  total_deliveries = r.total_deliveries + 1;
}

abbrev pub made_available : Rider → Rider
made_available r = record r { status = RiderStatus.available }

-- "On delivered/completed, update rider stats"
unfoldable pub settle_rider : (rider : ℕ) → Handler ⊤
settle_rider rider = do
  update_rider rider delivered_one
  active ← gets (λ s. count (counts_active rider) s.deliveries)
  when (leb active 1) (update_rider rider made_available)

-- `updateDeliveryStatus`
unfoldable pub update_delivery_status : (rider id : ℕ) (new : DeliveryStatus) (now : ℕ) → Handler ⊤
update_delivery_status rider id new now = do
  d ← find_delivery id
  require (is_rider d.rider rider) HttpError.forbidden
  require (includes new (valid_transitions d.status)) HttpError.bad_request
  update_delivery id (moved_to new now)
  send (Event.status_update id new)
  when (has_label new) (send (Event.system_chat id))
  when
      (is_status new rider_arrived_pickup
        && (is_quick d.delivery_type && not (is_paid d.payment_status)))
      (send (Event.status_update id rider_arrived_pickup))
  when (has_notification new) (send (Event.push_customer d.customer))
  when (is_status new delivered || is_status new completed) (settle_rider rider)

-- `Math.floor(1000 + Math.random() * 9000)`, where the random number is `draw / scale`
unfoldable pub generate_pin : (draw scale : ℕ) → ℕ
generate_pin draw scale = 1000 + draw * 9000 / scale

-- `if (alreadyPaid && !pin) pin = generatePin()`, on the document as it was read
abbrev pub new_pin : Bool → Option ℕ → ℕ → Option ℕ → Option ℕ
new_pin paid read pin old = if paid && not (is_some read) then some pin else old

abbrev pub arrived_pickup : (read : Delivery) (pickup delivery now : ℕ) → Delivery → Delivery
arrived_pickup read pickup delivery now d =
    let paid = is_paid read.payment_status in
    record d {
      status = rider_arrived_pickup;
      arrived_at_pickup_at = some now;
      can_reschedule = false;
      pickup_pin = new_pin paid read.pickup_pin pickup d.pickup_pin;
      delivery_pin = new_pin paid read.delivery_pin delivery d.delivery_pin;
    }

-- `arrivedAtPickup`; `pickup` and `delivery` are the PINs that it would generate, and the result is
-- `paymentRequired`.
unfoldable pub arrived_at_pickup : (rider id pickup delivery now : ℕ) → Handler Bool
arrived_at_pickup rider id pickup delivery now = do
  d ← find_delivery id
  require (is_rider d.rider rider) HttpError.forbidden
  require (includes d.status (rider_accepted ∷ rider_assigned ∷ rider_en_route_pickup ∷ []))
      HttpError.bad_request
  update_delivery id (arrived_pickup d pickup delivery now)
  send (Event.status_update id rider_arrived_pickup)
  send (Event.system_chat id)
  send (Event.push_customer d.customer)
  pure (is_quick d.delivery_type && not (is_paid d.payment_status))

abbrev pub arrived_dropoff : ℕ → Delivery → Delivery
arrived_dropoff now d = record d {
  status = rider_arrived_dropoff;
  arrived_at_dropoff_at = some now;
}

-- `arrivedAtDropoff`
unfoldable pub arrived_at_dropoff : (rider id now : ℕ) → Handler ⊤
arrived_at_dropoff rider id now = do
  d ← find_delivery id
  require (is_rider d.rider rider) HttpError.forbidden
  require (includes d.status (in_transit ∷ picked_up ∷ [])) HttpError.bad_request
  update_delivery id (arrived_dropoff now)
  send (Event.status_update id rider_arrived_dropoff)
  send (Event.system_chat id)
  send (Event.push_customer d.customer)

abbrev pub toggled : Rider → Rider → Rider
toggled doc r = record r {
  is_online = not doc.is_online;
  status =
      if ltb_ℤ (pos 0) doc.current_delivery_count
      then RiderStatus.on_delivery
      else if not doc.is_online
      then RiderStatus.available
      else RiderStatus.offline;
}

-- `toggleOnlineStatus`; `doc` is the rider's document as the authentication guard loaded it.
unfoldable pub toggle_online_status : (rider : ℕ) (doc : Rider) → Handler Bool
toggle_online_status rider doc = do update_rider rider (toggled doc); pure (not doc.is_online)

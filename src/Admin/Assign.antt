-- ===== src/Admin/Assign.antt =====
-- apps/admin-api/src/delivery/delivery.service.ts: a rider is put on a delivery.
use fastmotion_delivery.Base.{
  ℕ, Bool, false, not, ◌&&◌, Option, none, some, [], ◌∷◌, ◌==◌, List, is_some, if◌then◌else◌,
}
use fastmotion_delivery.Base.Int.{pos, ◌-ℤ◌, ltb_ℤ}
use fastmotion_delivery.Base.Dict.{lookup, count}
use fastmotion_delivery.Model.{
  Delivery, DeliveryStatus, Rider, RiderStatus, Handler, HttpError, Event, ⊤, pure, gets, some_or,
  require, send, update_delivery, update_rider, find_delivery, includes, is_verified, ◌>>=◌, ◌>>◌,
}
use fastmotion_delivery.Rider.{is_rider, take_on}
use DeliveryStatus.{
  pending, searching_rider, rider_accepted, rider_assigned, rider_en_route_pickup,
  rider_arrived_pickup, awaiting_payment, payment_confirmed, pickup_in_progress, picked_up,
  in_transit, rider_arrived_dropoff, delivery_in_progress, delivered, completed, cancelled,
  scheduled,
}

-- The rider whom an admin names: there, verified and below the capacity.
unfoldable pub find_assignable : (rider : ℕ) → Handler Rider
find_assignable rider = do
  o ← gets (λ s. lookup rider s.riders)
  r ← some_or o HttpError.not_found
  require (is_verified r.verification_status) HttpError.bad_request
  require (ltb_ℤ r.current_delivery_count (pos r.max_concurrent_deliveries)) HttpError.bad_request
  pure r

abbrev pub assignable_statuses : List DeliveryStatus
assignable_statuses = scheduled ∷ pending ∷ searching_rider ∷ []

abbrev pub assigned_to : (rider now : ℕ) → Delivery → Delivery
assigned_to rider now d = record d {
  rider = some rider;
  status = rider_assigned;
  rider_assigned_at = some now;
  can_reschedule = false;
}

-- `assignRider`
unfoldable pub assign_rider : (rider id now : ℕ) → Handler ⊤
assign_rider rider id now = do
  d ← find_delivery id
  require (not (is_some d.rider)) HttpError.bad_request
  require (includes d.status assignable_statuses) HttpError.bad_request
  _ ← find_assignable rider
  update_delivery id (assigned_to rider now)
  update_rider rider take_on
  send (Event.admin_logged id)
  send (Event.push_rider rider)
  send (Event.push_customer d.customer)

abbrev pub engaged_statuses : List DeliveryStatus
engaged_statuses =
    rider_accepted ∷ rider_assigned ∷ rider_en_route_pickup ∷ rider_arrived_pickup
    ∷ awaiting_payment ∷ payment_confirmed ∷ pickup_in_progress ∷ picked_up ∷ in_transit
    ∷ rider_arrived_dropoff ∷ delivery_in_progress ∷ []

-- The other deliveries that the rider is engaged with: `remainingActive` counts them.
abbrev pub counts_engaged : (rider id : ℕ) → ℕ → Delivery → Bool
counts_engaged rider id k d =
    is_rider d.rider rider && (not (k == id) && includes d.status engaged_statuses)

abbrev pub dropped : (idle : Bool) → Rider → Rider
dropped idle r = record r {
  current_delivery_count = r.current_delivery_count -ℤ pos 1;
  status = if idle then RiderStatus.available else r.status;
}

-- The previous rider of a delivery that is given to another.
unfoldable pub unassign : (id : ℕ) → Option ℕ → Handler ⊤
unassign id none = pure tt
unassign id (some p) = do
  remaining ← gets (λ s. count (counts_engaged p id) s.deliveries)
  update_rider p (dropped (remaining == 0))
  send (Event.push_rider p)

abbrev pub handed_to : (rider now : ℕ) → Delivery → Delivery
handed_to rider now d = record d { rider = some rider; rider_assigned_at = some now }

-- `reassignRider`
unfoldable pub reassign_rider : (rider id now : ℕ) → Handler ⊤
reassign_rider rider id now = do
  d ← find_delivery id
  require (not (includes d.status (delivered ∷ completed ∷ cancelled ∷ []))) HttpError.bad_request
  _ ← find_assignable rider
  unassign id d.rider
  update_delivery id (handed_to rider now)
  update_rider rider take_on
  send (Event.admin_logged id)
  send (Event.push_rider rider)
  send (Event.push_customer d.customer)

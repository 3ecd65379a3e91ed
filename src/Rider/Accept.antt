-- ===== src/Rider/Accept.antt =====
-- `acceptDelivery` and `rejectDelivery`. An acceptance reads and checks the delivery, and then
-- saves it: the two steps are functions of their own, since other requests may run between them.
use fastmotion_delivery.Base.{
  ℕ, Bool, true, false, not, ◌&&◌, Option, none, some, [], ◌∷◌, ◌==◌, is_some,
}
use fastmotion_delivery.Base.Int.{pos, ◌+ℤ◌, ◌-ℤ◌, ltb_ℤ}
use fastmotion_delivery.Model.{
  DeliveryStatus, RiderStatus, Delivery, Rider, Handler, HttpError, Event, ⊤, pure, require, when,
  send, update_delivery, update_rider, find_delivery, includes, is_verified, ◌>>=◌, ◌>>◌,
}
use fastmotion_delivery.Earnings.{compute_rider_payout}
use fastmotion_delivery.Rider.Commission.{get_commission_config}

-- `delivery.rider?.toString() === rider._id.toString()`
abbrev pub is_rider : Option ℕ → ℕ → Bool
is_rider none r = false
is_rider (some k) r = k == r

abbrev pub is_searching : DeliveryStatus → Bool
is_searching s = includes s (DeliveryStatus.searching_rider ∷ DeliveryStatus.pending ∷ [])

-- The guards, up to the last test before the write. `doc` is the rider's document as the
-- authentication guard loaded it.
unfoldable pub accept_check : (doc : Rider) (id : ℕ) → Handler Delivery
accept_check doc id = do
  require (is_verified doc.verification_status) HttpError.forbidden
  require doc.is_online HttpError.bad_request
  require (ltb_ℤ doc.current_delivery_count (pos doc.max_concurrent_deliveries))
      HttpError.bad_request
  d ← find_delivery id
  require (is_searching d.status) HttpError.bad_request
  require (not (is_some d.rider)) HttpError.bad_request
  pure d

abbrev pub accepted_by : (rider now : ℕ) → Delivery → Delivery
accepted_by rider now d = record d {
  rider = some rider;
  status = DeliveryStatus.rider_accepted;
  rider_accepted_at = some now;
  can_reschedule = false;
}

abbrev pub take_on : Rider → Rider
take_on r = record r {
  current_delivery_count = r.current_delivery_count +ℤ pos 1;
  status = RiderStatus.on_delivery;
}

-- From `delivery.save()` on; the result is the payout that the rider is shown.
unfoldable pub accept_commit : (rider id now : ℕ) → Delivery → Handler ℕ
accept_commit rider id now d = do
  update_delivery id (accepted_by rider now)
  update_rider rider take_on
  send (Event.status_update id DeliveryStatus.rider_accepted)
  send (Event.system_chat id)
  send (Event.push_customer d.customer)
  send (Event.rider_accepted id)
  (rate, min) ← get_commission_config now
  pure (compute_rider_payout d.total_price rate min)

-- `acceptDelivery`
unfoldable pub accept_delivery : (rider : ℕ) (doc : Rider) (id now : ℕ) → Handler ℕ
accept_delivery rider doc id now = do d ← accept_check doc id; accept_commit rider id now d

abbrev pub unassigned : Delivery → Delivery
unassigned d = record d {
  rider = none;
  status = DeliveryStatus.searching_rider;
  rider_accepted_at = none;
  can_reschedule = true;
}

abbrev pub drop_one : Rider → Rider
drop_one r = record r { current_delivery_count = r.current_delivery_count -ℤ pos 1 }

-- `rejectDelivery`
unfoldable pub reject_delivery : (rider id : ℕ) → Handler ⊤
reject_delivery rider id = do
  d ← find_delivery id
  when (is_rider d.rider rider) (do
    update_delivery id unassigned
    update_rider rider drop_one
    send (Event.status_update id DeliveryStatus.searching_rider)
    send (Event.system_chat id))
  when (not (is_rider d.rider rider) && not (is_some d.rider))
      (send (Event.rider_rejected id rider d.customer))

-- ===== src/Rider/Gaps.antt =====
-- Requests that the guards of apps/delivery-api/src/delivery/delivery.service.ts let through.
use fastmotion_delivery.Base.{ℕ, ◌≡◌, true, none, some, arith, [], ◌∷◌}
use fastmotion_delivery.Base.Dict.{lookup, lookup-update_self, update, count}
use fastmotion_delivery.Model.{
  Db, DeliveryStatus, Delivery, Rider, PaymentStatus, ok, is_ok, includes,
}
use fastmotion_delivery.Rider.Accept.{is_rider, reject_delivery, unassigned}
use fastmotion_delivery.Rider.Progress.{
  update_delivery_status, settle_rider, moved_to, made_available, delivered_one, counts_active,
  arrived_at_pickup, arrived_pickup, toggle_online_status, toggled,
}
use DeliveryStatus.{
  delivery_in_progress, delivered, rider_arrived_pickup, pickup_in_progress, rider_accepted,
  rider_assigned, rider_en_route_pickup,
}

-- Whatever the status of a delivery, delivered and completed included, its rider's rejection
-- succeeds: the delivery loses the rider and searches for another one.
pub reject_any_stage :
    (rider id : ℕ) (s : Db) (d : Delivery)
    → lookup id s.deliveries ≡ some d
    → is_rider d.rider rider ≡ true
    → let r = reject_delivery rider id s in
      (is_ok r.0 ≡ true) × (lookup id r.1.deliveries ≡ some (unassigned d))
unfolding reject_delivery
reject_any_stage rider id s d e mine =
    ground (arith, lookup-update_self id unassigned s.deliveries e)

settle_rider-rest :
    (rider : ℕ) (s : Db)
    → let r = settle_rider rider s in
      (r.0 ≡ ok tt)
      × (r.1.deliveries ≡ s.deliveries)
      × (r.1.earnings ≡ s.earnings)
      × (r.1.platform_earnings ≡ s.platform_earnings)
unfolding settle_rider
settle_rider-rest rider s = ground arith

-- From `delivery_in_progress` the rider may set `delivered` by a status update: the delivery counts
-- as delivered with the handover PIN unchecked, and neither the rider nor the platform is credited.
pub delivered_without_pin :
    (rider id now : ℕ) (s : Db) (d : Delivery)
    → lookup id s.deliveries ≡ some d
    → is_rider d.rider rider ≡ true
    → d.status ≡ delivery_in_progress
    → let r = update_delivery_status rider id delivered now s in
      (is_ok r.0 ≡ true)
      × (lookup id r.1.deliveries ≡ some (record d { status = delivered; delivered_at = some now }))
      × (r.1.earnings ≡ s.earnings)
      × (r.1.platform_earnings ≡ s.platform_earnings)
unfolding update_delivery_status
delivered_without_pin rider id now s d e mine at =
    grind (arith, settle_rider-rest, lookup-update_self id (moved_to delivered now) s.deliveries e)

-- At the pickup the rider may start it by a status update, whatever the payment status of the
-- delivery and with the pickup PIN unchecked.
pub pickup_without_payment :
    (rider id now : ℕ) (s : Db) (d : Delivery)
    → lookup id s.deliveries ≡ some d
    → is_rider d.rider rider ≡ true
    → d.status ≡ rider_arrived_pickup
    → let r = update_delivery_status rider id pickup_in_progress now s in
      (is_ok r.0 ≡ true)
      × (lookup id r.1.deliveries ≡ some (record d { status = pickup_in_progress }))
unfolding update_delivery_status
pickup_without_payment rider id now s d e mine at =
    ground (arith, lookup-update_self id (moved_to pickup_in_progress now) s.deliveries e)

-- On arrival at the pickup a paid delivery gets the two new PINs, also where it had PINs: the read
-- of the document leaves the PIN fields out, so the test "not yet generated" always passes.
pub arrival_replaces_pins :
    (rider id p q now : ℕ) (s : Db) (d : Delivery)
    → lookup id s.deliveries ≡ some d
    → is_rider d.rider rider ≡ true
    → includes d.status (rider_accepted ∷ rider_assigned ∷ rider_en_route_pickup ∷ []) ≡ true
    → d.payment_status ≡ PaymentStatus.paid
    → (e : Delivery) × (lookup id (arrived_at_pickup rider id p q now s).1.deliveries ≡ some e)
      × (e.pickup_pin ≡ some p)
      × (e.delivery_pin ≡ some q)
unfolding arrived_at_pickup
arrival_replaces_pins rider id p q now s d e mine at paid =
    let read = record d { pickup_pin = none; delivery_pin = none } in
    (
      arrived_pickup read p q now d,
      ground (arith, lookup-update_self id (arrived_pickup read p q now) s.deliveries e),
      ground arith,
      ground arith,
    )

-- After a delivery the rider is set to `available` also where one other delivery of the rider is
-- under way: the count is taken when this delivery has left the active statuses.
pub available_with_one_active :
    (rider : ℕ) (s : Db) (w : Rider)
    → lookup rider s.riders ≡ some w
    → count (counts_active rider) s.deliveries ≡ 1
    → lookup rider (settle_rider rider s).1.riders ≡ some (made_available (delivered_one w))
unfolding settle_rider
available_with_one_active rider s w e one =
    let once = lookup-update_self rider delivered_one s.riders e in
    ground
      (arith, lookup-update_self rider made_available (update rider delivered_one s.riders) once)

-- Two toggles, each with the rider's document as it then stands, leave the rider as online as before.
pub toggle_twice :
    (rider : ℕ) (s : Db) (w : Rider)
    → lookup rider s.riders ≡ some w
    → let t = (toggle_online_status rider w s).1 in
      (e : Rider) × (lookup rider (toggle_online_status rider (toggled w w) t).1.riders ≡ some e)
      × (lookup rider t.riders ≡ some (toggled w w))
      × (e.is_online ≡ w.is_online)
unfolding toggle_online_status
toggle_twice rider s w e =
    let once = lookup-update_self rider (toggled w) s.riders e in
    (
      toggled (toggled w w) (toggled w w),
      lookup-update_self rider (toggled (toggled w w)) (update rider (toggled w) s.riders) once,
      once,
      ground arith,
    )

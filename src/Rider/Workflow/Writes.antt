-- ===== src/Rider/Workflow/Writes.antt =====
-- What each request of a rider writes to the deliveries: nothing, or one delivery that passed the
-- request's guards.
use fastmotion_delivery.Base.{ℕ, ◌≡◌, ◌⊎◌, inl, refl, true, none, some, [], ◌∷◌, arith}
use fastmotion_delivery.Base.Dict.{lookup, update}
use fastmotion_delivery.Model.{Db, DeliveryStatus, Delivery, Rider, includes, without_pins}
use fastmotion_delivery.Earnings.{credit_delivery_earnings, credit_payout}
use fastmotion_delivery.Rider.Commission.{get_commission_config}
use fastmotion_delivery.Rider.Accept.{
  is_rider, is_searching, accept_check, accept_commit, accept_delivery, accepted_by,
  reject_delivery, unassigned,
}
use fastmotion_delivery.Rider.Progress.{
  update_delivery_status, settle_rider, moved_to, valid_transitions, arrived_at_pickup,
  arrived_pickup, arrived_at_dropoff, arrived_dropoff, toggle_online_status,
}
use fastmotion_delivery.Rider.Pins.{
  verify_pickup_pin, pickup_pin_checked, pickup_pin_statuses, verify_delivery_pin, free_rider,
  handed_over, delivery_pin_statuses,
}
use fastmotion_delivery.Rider.Workflow.Request.{
  Request, accept, reject, update_status, pickup_pin, delivery_pin, at_pickup, at_dropoff, toggle,
  handle,
}
use DeliveryStatus.{rider_accepted, rider_assigned, rider_en_route_pickup, in_transit, picked_up}

-- From `s` to `t` nothing is written, or the delivery `id`, which passed the guard, is changed.
abbrev pub Wrote : (Delivery → Type 0) → (Delivery → Delivery → Delivery) → ℕ → Db → Db → Type 0
Wrote P f id s t =
    (t.deliveries ≡ s.deliveries)
    ⊎ ((d : Delivery) × (lookup id s.deliveries ≡ some d)
        × P d
        × (t.deliveries ≡ update id (f (without_pins d)) s.deliveries))

accept-Wrote :
    (rider : ℕ) (doc : Rider) (id now : ℕ) (s : Db)
    → Wrote
        (λ d. (is_searching d.status ≡ true) × (d.rider ≡ none))
        (λ _. accepted_by rider now)
        id
        s
        (accept_delivery rider doc id now s).1
unfolding accept_delivery accept_check accept_commit get_commission_config
accept-Wrote rider doc id now s = ground arith

reject-Wrote :
    (rider id : ℕ) (s : Db)
    → Wrote
        (λ d. is_rider d.rider rider ≡ true)
        (λ _. unassigned)
        id
        s
        (reject_delivery rider id s).1
unfolding reject_delivery
reject-Wrote rider id s = ground arith

settle_rider-deliveries : (rider : ℕ) (s : Db) → (settle_rider rider s).1.deliveries ≡ s.deliveries
unfolding settle_rider
settle_rider-deliveries rider s = ground arith

update-Wrote :
    (rider id : ℕ) (new : DeliveryStatus) (now : ℕ) (s : Db)
    → Wrote
        (λ d. (is_rider d.rider rider ≡ true) × (includes new (valid_transitions d.status) ≡ true))
        (λ _. moved_to new now)
        id
        s
        (update_delivery_status rider id new now s).1
unfolding update_delivery_status
update-Wrote rider id new now s = grind (arith, settle_rider-deliveries)

pickup_pin-Wrote :
    (rider id pin : ℕ) (s : Db)
    → Wrote
        (λ d. (is_rider d.rider rider ≡ true) × (includes d.status pickup_pin_statuses ≡ true))
        (λ _. pickup_pin_checked)
        id
        s
        (verify_pickup_pin rider id pin s).1
unfolding verify_pickup_pin
pickup_pin-Wrote rider id pin s = ground arith

free_rider-deliveries :
    (rider id : ℕ) (s : Db) → (free_rider rider id s).1.deliveries ≡ s.deliveries
unfolding free_rider
free_rider-deliveries rider id s = ground arith

credit-deliveries :
    (rider id new_id : ℕ) (s : Db)
    → (credit_delivery_earnings rider id new_id s).1.deliveries ≡ s.deliveries
unfolding credit_delivery_earnings credit_payout
credit-deliveries rider id new_id s = ground arith

delivery_pin-Wrote :
    (rider id pin now new_id : ℕ) (s : Db)
    → Wrote
        (λ d. (is_rider d.rider rider ≡ true) × (includes d.status delivery_pin_statuses ≡ true))
        (λ _. handed_over now)
        id
        s
        (verify_delivery_pin rider id pin now new_id s).1
unfolding verify_delivery_pin
delivery_pin-Wrote rider id pin now new_id s =
    grind (arith, free_rider-deliveries, credit-deliveries)

at_pickup-Wrote :
    (rider id p q now : ℕ) (s : Db)
    → Wrote
        (λ d.
          (is_rider d.rider rider ≡ true)
          × (includes d.status (rider_accepted ∷ rider_assigned ∷ rider_en_route_pickup ∷ [])
              ≡ true))
        (λ read. arrived_pickup read p q now)
        id
        s
        (arrived_at_pickup rider id p q now s).1
unfolding arrived_at_pickup
at_pickup-Wrote rider id p q now s = ground arith

at_dropoff-Wrote :
    (rider id now : ℕ) (s : Db)
    → Wrote
        (λ d.
          (is_rider d.rider rider ≡ true)
          × (includes d.status (in_transit ∷ picked_up ∷ []) ≡ true))
        (λ _. arrived_dropoff now)
        id
        s
        (arrived_at_dropoff rider id now s).1
unfolding arrived_at_dropoff
at_dropoff-Wrote rider id now s = ground arith

-- The delivery that a request is about, the guards that it puts on the delivery, and its write.
abbrev pub target : Request → ℕ
target (accept doc id) = id
target (reject id) = id
target (update_status id new) = id
target (pickup_pin id pin) = id
target (delivery_pin id pin new_id) = id
target (at_pickup id p q) = id
target (at_dropoff id) = id
target (toggle doc) = 0

abbrev pub Passed : (rider : ℕ) → Request → Delivery → Type 0
Passed rider (accept doc id) d = (is_searching d.status ≡ true) × (d.rider ≡ none)
Passed rider (reject id) d = is_rider d.rider rider ≡ true
Passed rider (update_status id new) d =
    (is_rider d.rider rider ≡ true) × (includes new (valid_transitions d.status) ≡ true)
Passed rider (pickup_pin id pin) d =
    (is_rider d.rider rider ≡ true) × (includes d.status pickup_pin_statuses ≡ true)
Passed rider (delivery_pin id pin new_id) d =
    (is_rider d.rider rider ≡ true) × (includes d.status delivery_pin_statuses ≡ true)
Passed rider (at_pickup id p q) d =
    (is_rider d.rider rider ≡ true)
    × (includes d.status (rider_accepted ∷ rider_assigned ∷ rider_en_route_pickup ∷ []) ≡ true)
Passed rider (at_dropoff id) d =
    (is_rider d.rider rider ≡ true) × (includes d.status (in_transit ∷ picked_up ∷ []) ≡ true)
Passed rider (toggle doc) d = ⊥

abbrev pub change : (rider now : ℕ) → Request → Delivery → Delivery → Delivery
change rider now (accept doc id) read d = accepted_by rider now d
change rider now (reject id) read d = unassigned d
change rider now (update_status id new) read d = moved_to new now d
change rider now (pickup_pin id pin) read d = pickup_pin_checked d
change rider now (delivery_pin id pin new_id) read d = handed_over now d
change rider now (at_pickup id p q) read d = arrived_pickup read p q now d
change rider now (at_dropoff id) read d = arrived_dropoff now d
change rider now (toggle doc) read d = d

pub handle-Wrote :
    (rider now : ℕ) (r : Request) (s : Db)
    → Wrote (Passed rider r) (change rider now r) (target r) s (handle rider now r s)
unfolding handle toggle_online_status
handle-Wrote rider now (accept doc id) s = accept-Wrote rider doc id now s
handle-Wrote rider now (reject id) s = reject-Wrote rider id s
handle-Wrote rider now (update_status id new) s = update-Wrote rider id new now s
handle-Wrote rider now (pickup_pin id pin) s = pickup_pin-Wrote rider id pin s
handle-Wrote rider now (delivery_pin id pin new_id) s = delivery_pin-Wrote rider id pin now new_id s
handle-Wrote rider now (at_pickup id p q) s = at_pickup-Wrote rider id p q now s
handle-Wrote rider now (at_dropoff id) s = at_dropoff-Wrote rider id now s
handle-Wrote rider now (toggle doc) s = inl refl

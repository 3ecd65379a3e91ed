-- ===== src/Tests/RiderRuns.antt =====
-- The theorems on the rider service at concrete states.
use fastmotion_delivery.Base.{◌≤◌, ◌≡◌, ◌↔◌, refl, true, none, some, List, [], ◌∷◌, arith}
use fastmotion_delivery.Base.Dict.{lookup}
use fastmotion_delivery.Model.{Db, Delivery, DeliveryStatus, PaymentStatus, is_ok, code}
use fastmotion_delivery.Earnings.{is_credited}
use fastmotion_delivery.Rider.{
  accept_delivery, is_searching, verify_pickup_pin, verify_delivery_pin,
}
use fastmotion_delivery.Rider.Ownership.{CanAccept, accept_iff}
use fastmotion_delivery.Rider.Handover.{CanPickUp, CanHandOver, pickup_pin_iff, delivery_pin_iff}
use fastmotion_delivery.Rider.Counters.{Holds, Earned, payout_of, handover_pays}
use fastmotion_delivery.Rider.Workflow.Request.{Request, Call, run}
use fastmotion_delivery.Rider.Workflow.Invariant.{IsStaffed, run-IsStaffed, run-forward}
use fastmotion_delivery.Tests.Data.{rider_doc, with_delivery, free_delivery, taken_delivery}
use DeliveryStatus.{in_transit, completed, delivery_in_progress, rider_en_route_pickup}

abbrev free_db : Db
free_db = with_delivery free_delivery

abbrev transit : Delivery
transit = taken_delivery in_transit PaymentStatus.paid

abbrev transit_db : Db
transit_db = with_delivery transit

-- Accepted by the rider 7, brought to the pickup and handed over with a wrong PIN.
abbrev calls : List Call
calls =
    record { rider = 7; now = 10; request = Request.accept (rider_doc 1 1000) 5 }
    ∷ record { rider = 7; now = 20; request = Request.at_pickup 5 1111 2222 }
    ∷ record { rider = 7; now = 30; request = Request.pickup_pin 5 9999 }
    ∷ []

free-IsStaffed : IsStaffed free_db
unfolding lookup
free-IsStaffed k v e = ground arith

run-IsStaffed_example : IsStaffed (run calls free_db)
run-IsStaffed_example = run-IsStaffed calls free_db free-IsStaffed

run-forward_example :
    (e : Delivery) × (lookup 5 (run calls free_db).deliveries ≡ some e)
    × (code free_delivery.status ≤ code e.status)
unfolding lookup
run-forward_example = run-forward calls free_db 5 free_delivery (refl, (refl, (refl, tt))) refl

accept_iff_example : (is_ok (accept_delivery 7 (rider_doc 1 1000) 5 10 free_db).0 ≡ true) ↔ (
    CanAccept (rider_doc 1 1000)
    × ((d : Delivery) × (lookup 5 free_db.deliveries ≡ some d)
        × (is_searching d.status ≡ true)
        × (d.rider ≡ none)))
accept_iff_example = accept_iff 7 (rider_doc 1 1000) 5 10 free_db

free-CanAccept :
    CanAccept (rider_doc 1 1000)
    × ((d : Delivery) × (lookup 5 free_db.deliveries ≡ some d)
        × (is_searching d.status ≡ true)
        × (d.rider ≡ none))
unfolding lookup
free-CanAccept = ((refl, refl, refl), (free_delivery, refl, refl, refl))

first_accepts : is_ok (accept_delivery 7 (rider_doc 1 1000) 5 10 free_db).0 ≡ true
first_accepts = (accept_iff 7 (rider_doc 1 1000) 5 10 free_db).1 free-CanAccept

pickup_pin_iff_example :
    (is_ok (verify_pickup_pin 7 5 1234 transit_db).0 ≡ true)
    ↔ ((d : Delivery) × (lookup 5 transit_db.deliveries ≡ some d) × CanPickUp 7 1234 d)
pickup_pin_iff_example = pickup_pin_iff 7 5 1234 transit_db

delivery_pin_iff_example :
    (is_ok (verify_delivery_pin 7 5 5678 10 6 transit_db).0 ≡ true)
    ↔ ((d : Delivery) × (lookup 5 transit_db.deliveries ≡ some d) × CanHandOver 7 5678 d)
delivery_pin_iff_example = delivery_pin_iff 7 5 5678 10 6 transit_db

handover_pays_example :
    Holds
      (Earned (payout_of transit_db transit) (rider_doc 1 1000))
      7
      (verify_delivery_pin 7 5 5678 10 6 transit_db).1
unfolding lookup is_credited
handover_pays_example =
    handover_pays 7 5 5678 10 6 transit_db transit (rider_doc 1 1000) refl (refl, refl, refl) refl
      refl

abbrev done : Delivery
done = taken_delivery completed PaymentStatus.paid

abbrev at_door : Delivery
at_door = taken_delivery delivery_in_progress PaymentStatus.paid

abbrev en_route : Delivery
en_route = taken_delivery rider_en_route_pickup PaymentStatus.paid

-- ===== src/Customer/Access.antt =====
-- Who gets what from the handlers of a customer's delivery, and at which stage.
use fastmotion_delivery.Base.{ℕ, ◌≡◌, ◌↔◌, ◌⊎◌, true, false, none, some, arith}
use fastmotion_delivery.Base.Dict.{lookup}
use fastmotion_delivery.Model.{Db, Delivery, PendingDelivery, ok, is_ok, is_paid, includes}
use fastmotion_delivery.Customer.Cancel.{
  own_delivery, cancel_delivery, cancel_stored, cancel_pending, is_cancellable,
}
use fastmotion_delivery.Customer.Pickup.{
  own_delivery_with_pins, get_pickup_pin, get_delivery_pin, before_pickup_statuses,
  under_way_statuses,
}

-- A customer is shown a pickup PIN exactly when the delivery is the customer's own, has this PIN, is
-- paid for and is past the rider's way to the pickup.
pub pickup_pin_shown_iff :
    (user id pin : ℕ) (s : Db)
    → ((get_pickup_pin user id s).0 ≡ ok (some pin)) ↔ (
        (d : Delivery) × (lookup id s.deliveries ≡ some d)
        × (d.customer ≡ user)
        × (is_paid d.payment_status ≡ true)
        × (includes d.status before_pickup_statuses ≡ false)
        × (d.pickup_pin ≡ some pin))
unfolding get_pickup_pin own_delivery_with_pins
pickup_pin_shown_iff user id pin s = ground arith

-- A customer is shown a delivery PIN exactly when the delivery is the customer's own, has this PIN
-- and is on its way from the pickup to the drop-off.
pub delivery_pin_shown_iff :
    (user id pin : ℕ) (s : Db)
    → ((get_delivery_pin user id s).0 ≡ ok (some pin)) ↔ (
        (d : Delivery) × (lookup id s.deliveries ≡ some d)
        × (d.customer ≡ user)
        × (includes d.status under_way_statuses ≡ true)
        × (d.delivery_pin ≡ some pin))
unfolding get_delivery_pin own_delivery_with_pins
delivery_pin_shown_iff user id pin s = ground arith

-- A delivery of the database is cancelled exactly when it is the customer's own and not delivered,
-- completed or cancelled; one that waits in Redis, when it is the customer's own.
pub cancel_iff :
    (user id now : ℕ) (s : Db)
    → (is_ok (cancel_delivery user id now s).0 ≡ true) ↔ (
        ((d : Delivery) × (lookup id s.deliveries ≡ some d)
          × (d.customer ≡ user)
          × (is_cancellable d.status ≡ true))
        ⊎ ((lookup id s.deliveries ≡ none)
            × ((p : PendingDelivery) × (lookup id s.pending_deliveries ≡ some p)
                × (p.user_id ≡ user))))
unfolding cancel_delivery cancel_stored cancel_pending own_delivery
cancel_iff user id now s = ground arith

-- ===== src/Rider/Handover.antt =====
-- The PIN checks, what a handover does to the delivery and the rider, and the commission cache.
use fastmotion_delivery.Base.{ℕ, ◌+◌, ◌≤◌, ◌<◌, ◌≡◌, ◌↔◌, refl, true, none, some, arith, Option}
use fastmotion_delivery.Base.Dict.{lookup, lookup-update_self}
use fastmotion_delivery.Model.{Db, Delivery, DeliveryStatus, ok, is_ok, includes, PayoutConfig}
use fastmotion_delivery.Earnings.{credit_delivery_earnings, credit_payout}
use fastmotion_delivery.Rider.Commission.{get_commission_config, cache_ms}
use fastmotion_delivery.Rider.Accept.{is_rider}
use fastmotion_delivery.Rider.Progress.{generate_pin}
use fastmotion_delivery.Rider.Pins.{
  verify_pickup_pin, pickup_pin_statuses, verify_delivery_pin, free_rider, handed_over,
  delivery_pin_statuses,
}

-- The delivery is the rider's, at a stage where the handover PIN is asked for, and this is the PIN.
abbrev pub CanHandOver : (rider pin : ℕ) → Delivery → Type 0
CanHandOver rider pin d =
    (is_rider d.rider rider ≡ true)
    × (includes d.status delivery_pin_statuses ≡ true)
    × (d.delivery_pin ≡ some pin)

-- The stages at which the pickup PIN is asked for: at the pickup, paid or not, once it is paid for, and
-- once more after the PIN was accepted.
pub data IsAtPickup (x : DeliveryStatus) : Type 0 where
  arrived : x ≡ DeliveryStatus.rider_arrived_pickup → IsAtPickup x
  paid_for : x ≡ DeliveryStatus.payment_confirmed → IsAtPickup x
  checked : x ≡ DeliveryStatus.pickup_in_progress → IsAtPickup x

includes-IsAtPickup : (x : DeliveryStatus) → includes x pickup_pin_statuses ≡ true → IsAtPickup x
includes-IsAtPickup DeliveryStatus.rider_arrived_pickup h = IsAtPickup.arrived refl
includes-IsAtPickup DeliveryStatus.payment_confirmed h = IsAtPickup.paid_for refl
includes-IsAtPickup DeliveryStatus.pickup_in_progress h = IsAtPickup.checked refl
includes-IsAtPickup _ h = ground arith

IsAtPickup-includes : (x : DeliveryStatus) → IsAtPickup x → includes x pickup_pin_statuses ≡ true
IsAtPickup-includes x (IsAtPickup.arrived e) = rw e refl
IsAtPickup-includes x (IsAtPickup.paid_for e) = rw e refl
IsAtPickup-includes x (IsAtPickup.checked e) = rw e refl

abbrev pub CanPickUp : (rider pin : ℕ) → Delivery → Type 0
CanPickUp rider pin d = (d.rider ≡ some rider) × IsAtPickup d.status × (d.pickup_pin ≡ some pin)

pin-cases :
    (rider id pin : ℕ) (s : Db)
    → (is_ok (verify_pickup_pin rider id pin s).0 ≡ true) ↔ (
        (d : Delivery) × (lookup id s.deliveries ≡ some d)
        × (is_rider d.rider rider ≡ true)
        × (includes d.status pickup_pin_statuses ≡ true)
        × (d.pickup_pin ≡ some pin))
unfolding verify_pickup_pin
pin-cases rider id pin s = ground arith

-- The pickup PIN is accepted exactly when the delivery is there, is the rider's, has this PIN, and its
-- status is `rider_arrived_pickup`, `payment_confirmed` or `pickup_in_progress`. Whether the delivery is
-- paid for is not asked.
pub pickup_pin_iff :
    (rider id pin : ℕ) (s : Db)
    → (is_ok (verify_pickup_pin rider id pin s).0 ≡ true)
      ↔ ((d : Delivery) × (lookup id s.deliveries ≡ some d) × CanPickUp rider pin d)
pickup_pin_iff rider id pin s = (
  λ h.
      let (d, e, own, stage, same) = (pin-cases rider id pin s).0 h in
      (d, e, (ground arith, includes-IsAtPickup d.status stage, same)),
  λ (d, e, (own, stage, same)).
      (pin-cases rider id pin s).1 (d, e, ground arith, IsAtPickup-includes d.status stage, same),
)

free_rider-ok : (rider id : ℕ) (s : Db) → (free_rider rider id s).0 ≡ ok tt
unfolding free_rider
free_rider-ok rider id s = ground arith

free_rider-deliveries :
    (rider id : ℕ) (s : Db) → (free_rider rider id s).1.deliveries ≡ s.deliveries
unfolding free_rider
free_rider-deliveries rider id s = ground arith

credit-ok : (rider id new_id : ℕ) (s : Db) → (credit_delivery_earnings rider id new_id s).0 ≡ ok tt
unfolding credit_delivery_earnings credit_payout
credit-ok rider id new_id s = ground arith

credit-deliveries :
    (rider id new_id : ℕ) (s : Db)
    → (credit_delivery_earnings rider id new_id s).1.deliveries ≡ s.deliveries
unfolding credit_delivery_earnings credit_payout
credit-deliveries rider id new_id s = ground arith

-- The handover PIN is accepted exactly when the delivery is there, is the rider's, is on the way and
-- has this PIN.
pub delivery_pin_iff :
    (rider id pin now new_id : ℕ) (s : Db)
    → (is_ok (verify_delivery_pin rider id pin now new_id s).0 ≡ true)
      ↔ ((d : Delivery) × (lookup id s.deliveries ≡ some d) × CanHandOver rider pin d)
unfolding verify_delivery_pin
delivery_pin_iff rider id pin now new_id s = grind (arith, free_rider-ok, credit-ok)

-- A handover with the right PIN marks the delivery as delivered and its PIN as verified.
pub handover_delivers :
    (rider id pin now new_id : ℕ) (s : Db) (d : Delivery)
    → lookup id s.deliveries ≡ some d
    → CanHandOver rider pin d
    → lookup id (verify_delivery_pin rider id pin now new_id s).1.deliveries
      ≡ some (handed_over now d)
unfolding verify_delivery_pin
handover_delivers rider id pin now new_id s d e can = grind (
  arith,
  free_rider-ok,
  credit-ok,
  free_rider-deliveries,
  credit-deliveries,
  lookup-update_self id (handed_over now) s.deliveries e,
)

-- A generated PIN has four digits: `Math.random()` is `draw / scale`, below 1.
pub generate_pin_digits :
    (draw scale : ℕ)
    → draw < scale
    → (1000 ≤ generate_pin draw scale) × (generate_pin draw scale ≤ 9999)
unfolding generate_pin
generate_pin_digits draw scale h = grind arith

-- For five minutes after a lookup the commission that riders are shown stays as it was then,
-- whatever becomes of the configuration meanwhile.
pub commission_cached :
    (now later : ℕ) (s : Db) (new : Option PayoutConfig)
    → s.commission_cache ≡ none
    → later < now + cache_ms
    → let (r, t) = get_commission_config now s in
      (get_commission_config later (record t { config = new })).0 ≡ r
unfolding get_commission_config
commission_cached now later s new e h = ground arith

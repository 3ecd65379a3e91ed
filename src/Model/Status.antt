-- ===== src/Model/Status.antt =====
-- libs/common/src/enums/delivery.enum.ts
use fastmotion_delivery.Base.{
  ℕ, ◌≡◌, refl, sym, ap, ◌∙◌, Bool, true, false, ◌||◌, List, [], ◌∷◌, ◌==◌, ==→eq, ==_refl,
  if◌then◌else◌,
}

pub data DeliveryStatus : Type 0 where
  pending searching_rider rider_accepted rider_assigned : DeliveryStatus
  rider_en_route_pickup rider_arrived_pickup awaiting_payment payment_confirmed : DeliveryStatus
  pickup_in_progress picked_up in_transit rider_arrived_dropoff : DeliveryStatus
  delivery_in_progress delivered completed cancelled failed scheduled : DeliveryStatus

pub data DeliveryType : Type 0 where
  quick scheduled : DeliveryType

pub data RiderStatus : Type 0 where
  available busy offline on_delivery : RiderStatus

pub data VerificationStatus : Type 0 where
  pending verified rejected suspended : VerificationStatus

pub data PaymentStatus : Type 0 where
  pending paid failed refunded partially_refunded : PaymentStatus

-- The string of a status, as a number that tells the statuses apart.
abbrev pub code : DeliveryStatus → ℕ
code DeliveryStatus.pending = 0
code DeliveryStatus.searching_rider = 1
code DeliveryStatus.rider_accepted = 2
code DeliveryStatus.rider_assigned = 3
code DeliveryStatus.rider_en_route_pickup = 4
code DeliveryStatus.rider_arrived_pickup = 5
code DeliveryStatus.awaiting_payment = 6
code DeliveryStatus.payment_confirmed = 7
code DeliveryStatus.pickup_in_progress = 8
code DeliveryStatus.picked_up = 9
code DeliveryStatus.in_transit = 10
code DeliveryStatus.rider_arrived_dropoff = 11
code DeliveryStatus.delivery_in_progress = 12
code DeliveryStatus.delivered = 13
code DeliveryStatus.completed = 14
code DeliveryStatus.cancelled = 15
code DeliveryStatus.failed = 16
code DeliveryStatus.scheduled = 17

abbrev pub is_status : DeliveryStatus → DeliveryStatus → Bool
is_status s t = code s == code t

-- `statuses.includes(s)`
abbrev pub includes : DeliveryStatus → List DeliveryStatus → Bool
includes s [] = false
includes s (t ∷ ts) = is_status s t || includes s ts

abbrev pub is_paid : PaymentStatus → Bool
is_paid PaymentStatus.paid = true
is_paid _ = false

abbrev pub is_quick : DeliveryType → Bool
is_quick DeliveryType.quick = true
is_quick DeliveryType.scheduled = false

abbrev pub is_verified : VerificationStatus → Bool
is_verified VerificationStatus.verified = true
is_verified _ = false

-- The code tells the statuses apart.
of_code : ℕ → DeliveryStatus
of_code n =
    if n == 0
    then DeliveryStatus.pending
    else if n == 1
    then DeliveryStatus.searching_rider
    else if n == 2
    then DeliveryStatus.rider_accepted
    else if n == 3
    then DeliveryStatus.rider_assigned
    else if n == 4
    then DeliveryStatus.rider_en_route_pickup
    else if n == 5
    then DeliveryStatus.rider_arrived_pickup
    else if n == 6
    then DeliveryStatus.awaiting_payment
    else if n == 7
    then DeliveryStatus.payment_confirmed
    else if n == 8
    then DeliveryStatus.pickup_in_progress
    else if n == 9
    then DeliveryStatus.picked_up
    else if n == 10
    then DeliveryStatus.in_transit
    else if n == 11
    then DeliveryStatus.rider_arrived_dropoff
    else if n == 12
    then DeliveryStatus.delivery_in_progress
    else if n == 13
    then DeliveryStatus.delivered
    else if n == 14
    then DeliveryStatus.completed
    else if n == 15
    then DeliveryStatus.cancelled
    else if n == 16
    then DeliveryStatus.failed
    else DeliveryStatus.scheduled

of_code-code : (s : DeliveryStatus) → of_code (code s) ≡ s
unfolding of_code
of_code-code DeliveryStatus.pending = refl
of_code-code _ = refl

pub is_status→eq : (s t : DeliveryStatus) → is_status s t ≡ true → s ≡ t
is_status→eq s t h = sym (of_code-code s) ∙ ap of_code (==→eq (code s) (code t) h) ∙ of_code-code t

pub is_status_refl : (s : DeliveryStatus) → is_status s s ≡ true
is_status_refl s = ==_refl (code s)

-- ===== src/Customer/Reschedule.antt =====
-- apps/user-api/src/delivery/delivery.service.ts: another time for a delivery.
use fastmotion_delivery.Base.{
  ℕ, ◌+◌, ◌*◌, ◌/◌, Bool, not, Option, none, some, List, [], ◌∷◌, ◌==◌, if◌then◌else◌,
}
use fastmotion_delivery.Base.Int.{ℤ, pos, ◌-ℤ◌, ltb_ℤ}
use fastmotion_delivery.Model.{
  Delivery, DeliveryStatus, Handler, HttpError, Event, ⊤, pure, require, update_delivery, includes,
  ◌>>=◌, ◌>>◌,
}
use fastmotion_delivery.Customer.Cancel.{own_delivery, send_all}
use DeliveryStatus.{
  rider_arrived_pickup, awaiting_payment, payment_confirmed, pickup_in_progress, picked_up,
  in_transit, rider_arrived_dropoff, delivery_in_progress, delivered, completed, cancelled,
}

-- `delivery.pricing.timeMultiplier || 1`
abbrev pub multiplier_or_one : Option ℕ → ℕ
multiplier_or_one none = 10_000
multiplier_or_one (some m) = if m == 0 then 10_000 else m

-- `Math.round((current / multiplier) * newMultiplier)`
unfoldable pub reprice : (current old new : ℕ) → ℕ
reprice current old new = (2 * (current * new) + old) / (2 * old)

-- `newPrice`; `multiplier` is the one of the time pricing in force at the new time, if there is one.
abbrev pub new_price : (multiplier : Option ℕ) → Delivery → ℕ
new_price none d = d.total_price
new_price (some m) d = reprice d.total_price (multiplier_or_one d.time_multiplier) m

abbrev pub price_difference : (multiplier : Option ℕ) → Delivery → ℤ
price_difference multiplier d = pos (new_price multiplier d) -ℤ pos d.total_price

-- What a customer is told of another time: the present price, the one for the new time, their
-- difference, and whether it has to be paid for.
pub record Preview : Type 0 where
  pub current_price : ℕ
  pub new_price : ℕ
  pub price_difference : ℤ
  pub additional_payment_required : Bool

abbrev pub preview_of : (multiplier : Option ℕ) → Delivery → Preview
preview_of multiplier d = record {
  current_price = d.total_price;
  new_price = new_price multiplier d;
  price_difference = price_difference multiplier d;
  additional_payment_required = ltb_ℤ (pos 0) (price_difference multiplier d);
}

-- `previewReschedule`
unfoldable pub preview_reschedule : (user id : ℕ) (multiplier : Option ℕ) → Handler Preview
preview_reschedule user id multiplier = do
  d ← own_delivery user id
  require d.can_reschedule HttpError.bad_request
  pure (preview_of multiplier d)

-- `addRescheduleHistory`, without the texts of the entry
abbrev pub with_history : Delivery → Delivery
with_history d = record d { reschedule_count = d.reschedule_count + 1 }

abbrev pub moved_to_time : ℕ → Delivery → Delivery
moved_to_time time d = record d { scheduled_pickup_time = some time }

abbrev pub of_new_time : (id : ℕ) → Option ℕ → List Event
of_new_time id none = []
of_new_time id (some r) = Event.rescheduled id r ∷ []

-- The writes of a move that costs nothing more.
unfoldable pub move_delivery : (id time : ℕ) → Delivery → Handler ⊤
move_delivery id time d = do
  update_delivery id with_history
  update_delivery id (moved_to_time time)
  send_all (of_new_time id d.rider)

-- `rescheduleDelivery`; the result is the additional payment that is asked for, and nothing when the
-- delivery is moved.
unfoldable pub reschedule_delivery : (user id time : ℕ) (multiplier : Option ℕ) → Handler (Option ℤ)
reschedule_delivery user id time multiplier = do
  d ← own_delivery user id
  require d.can_reschedule HttpError.bad_request
  if ltb_ℤ (pos 0) (price_difference multiplier d)
      then pure (some (price_difference multiplier d))
      else (move_delivery id time d >> pure none)

-- `confirmReschedulePayment`; the result is the time that the customer is told.
unfoldable pub confirm_reschedule_payment : (user id : ℕ) → Handler (Option ℕ)
confirm_reschedule_payment user id = do d ← own_delivery user id; pure d.scheduled_pickup_time

-- `nonReschedulableStatuses`
abbrev pub fixed_statuses : List DeliveryStatus
fixed_statuses =
    rider_arrived_pickup ∷ awaiting_payment ∷ payment_confirmed ∷ pickup_in_progress ∷ picked_up
    ∷ in_transit ∷ rider_arrived_dropoff ∷ delivery_in_progress ∷ delivered ∷ completed ∷ cancelled
    ∷ []

-- `canReschedule`
unfoldable pub can_reschedule : (user id : ℕ) → Handler Bool
can_reschedule user id = do d ← own_delivery user id; pure (not (includes d.status fixed_statuses))

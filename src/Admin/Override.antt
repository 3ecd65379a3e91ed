-- ===== src/Admin/Override.antt =====
-- apps/admin-api/src/delivery/delivery.service.ts: an admin moves a delivery on, ends it, or changes
-- its price. The flags that mark a delivery as ended by an admin are not modelled.
use fastmotion_delivery.Base.{
  ℕ, ◌+◌, Bool, true, not, ◌&&◌, Option, none, some, [], ◌∷◌, leb, if◌then◌else◌,
}
use fastmotion_delivery.Base.Int.{pos, ◌-ℤ◌}
use fastmotion_delivery.Model.{
  Delivery, DeliveryStatus, PaymentStatus, Rider, Handler, HttpError, Event, ⊤, pure, require, when,
  send, update_delivery, update_rider, find_delivery, includes, is_paid, ◌>>=◌, ◌>>◌,
}
use DeliveryStatus.{
  rider_arrived_pickup, payment_confirmed, pickup_in_progress, picked_up, rider_arrived_dropoff,
  delivery_in_progress, delivered, completed, cancelled, failed,
}

pub data PinType : Type 0 where
  pickup delivery : PinType

-- `x || y` of a time
abbrev pub or_now : Option ℕ → ℕ → Option ℕ
or_now none now = some now
or_now (some t) now = some t

abbrev pub overridden : PinType → (now : ℕ) → Delivery → Delivery
overridden PinType.pickup now d = record d {
  pickup_pin_verified = true;
  pickup_pin_overridden = true;
  status =
      if includes d.status (rider_arrived_pickup ∷ payment_confirmed ∷ [])
      then pickup_in_progress
      else d.status;
}
overridden PinType.delivery now d = record d {
  delivery_pin_verified = true;
  delivery_pin_overridden = true;
  status =
      if includes d.status (rider_arrived_dropoff ∷ delivery_in_progress ∷ [])
      then delivered
      else d.status;
  delivered_at =
      if includes d.status (rider_arrived_dropoff ∷ delivery_in_progress ∷ [])
      then some now
      else d.delivered_at;
}

abbrev pub push_both : Delivery → Handler ⊤
push_both d s =
    (send (Event.push_customer d.customer)
        >> elim d.rider [ none ↦ pure tt | some r ↦ send (Event.push_rider r) ])
      s

-- `overridePin`
unfoldable pub override_pin : (id : ℕ) → PinType → (now : ℕ) → Handler ⊤
override_pin id pin now = do
  d ← find_delivery id
  require (not (includes d.status (completed ∷ cancelled ∷ failed ∷ []))) HttpError.bad_request
  update_delivery id (overridden pin now)
  send (Event.admin_logged id)
  push_both d

abbrev pub is_over : DeliveryStatus → Bool
is_over s = includes s (completed ∷ cancelled ∷ [])

abbrev pub completed_by_admin : ℕ → Delivery → Delivery
completed_by_admin now d = record d {
  status = completed;
  completed_at = some now;
  delivered_at = or_now d.delivered_at now;
}

abbrev pub one_completed : Rider → Rider
one_completed r = record r {
  current_delivery_count = r.current_delivery_count -ℤ pos 1;
  total_deliveries = r.total_deliveries + 1;
}

abbrev pub one_less : Rider → Rider
one_less r = record r { current_delivery_count = r.current_delivery_count -ℤ pos 1 }

-- The rider of the delivery, if it has one, is updated and hears of it.
unfoldable pub release : (Rider → Rider) → Option ℕ → Handler ⊤
release f none = pure tt
release f (some r) = update_rider r f >> send (Event.push_rider r)

-- `manualComplete`
unfoldable pub manual_complete : (id now : ℕ) → Handler ⊤
manual_complete id now = do
  d ← find_delivery id
  require (not (is_over d.status)) HttpError.bad_request
  update_delivery id (completed_by_admin now)
  release one_completed d.rider
  send (Event.admin_logged id)
  send (Event.push_customer d.customer)

abbrev pub cancelled_by_admin : ℕ → Delivery → Delivery
cancelled_by_admin now d = record d { status = cancelled; cancelled_at = some now }

-- `refundAmount`: the amount of the request, or the price
abbrev pub amount_or_price : Option ℕ → ℕ → ℕ
amount_or_price none price = price
amount_or_price (some a) price = if leb a 0 then price else a

abbrev pub refund_status : (whole : Bool) → PaymentStatus
refund_status whole = if whole then PaymentStatus.refunded else PaymentStatus.partially_refunded

abbrev pub with_payment_status : PaymentStatus → Delivery → Delivery
with_payment_status p d = record d { payment_status = p }

-- `manualCancel`; `refund` is `issueRefund` of the request, and `amount` its `refundAmount`.
unfoldable pub manual_cancel : (id : ℕ) (refund : Bool) (amount : Option ℕ) (now : ℕ) → Handler ⊤
manual_cancel id refund amount now = do
  d ← find_delivery id
  require (not (is_over d.status)) HttpError.bad_request
  update_delivery id (cancelled_by_admin now)
  release one_less d.rider
  send (Event.admin_logged id)
  when (refund && is_paid d.payment_status) (
      update_delivery id (
        with_payment_status
          (refund_status (leb d.total_price (amount_or_price amount d.total_price)))))
  send (Event.push_customer d.customer)

abbrev pub priced : ℕ → Delivery → Delivery
priced price d = record d { total_price = price }

-- `adjustPrice`
unfoldable pub adjust_price : (id price : ℕ) → Handler ⊤
adjust_price id price = do
  d ← find_delivery id
  require (not (includes d.status (completed ∷ cancelled ∷ failed ∷ []))) HttpError.bad_request
  update_delivery id (priced price)
  send (Event.admin_logged id)
  send (Event.push_customer d.customer)

-- The time stamps of `updateStatus`
abbrev pub stamped_by_admin : DeliveryStatus → (now : ℕ) → Delivery → Delivery
stamped_by_admin rider_arrived_pickup now d = record d { arrived_at_pickup_at = some now }
stamped_by_admin picked_up now d = record d { picked_up_at = some now }
stamped_by_admin rider_arrived_dropoff now d = record d { arrived_at_dropoff_at = some now }
stamped_by_admin delivered now d = record d { delivered_at = some now }
stamped_by_admin completed now d = record d { completed_at = some now }
stamped_by_admin cancelled now d = record d { cancelled_at = some now }
stamped_by_admin _ now d = d

abbrev pub set_to : DeliveryStatus → (now : ℕ) → Delivery → Delivery
set_to new now d = record (stamped_by_admin new now d) { status = new }

-- `updateStatus`
unfoldable pub update_status_by_admin : (id : ℕ) → DeliveryStatus → (now : ℕ) → Handler ⊤
update_status_by_admin id new now = do
  d ← find_delivery id
  update_delivery id (set_to new now)
  send (Event.admin_logged id)
  send (Event.push_customer d.customer)

-- ===== src/Customer/Cancel.antt =====
-- apps/user-api/src/delivery/delivery.service.ts: `cancelDelivery`, with its fee and its refund.
use fastmotion_delivery.Base.{
  ℕ, Bool, not, Option, none, some, List, [], ◌∷◌, ◌++◌, ◌==◌, if◌then◌else◌, get_or,
}
use fastmotion_delivery.Base.Int.{ℤ, pos, ◌-ℤ◌, ltb_ℤ, pos_part}
use fastmotion_delivery.Base.Dict.{lookup, erase}
use fastmotion_delivery.Model.{
  Delivery, DeliveryStatus, PayoutConfig, PendingDelivery, Handler, HttpError, Event, ⊤, pure, gets,
  require, when, modify, send, throw, update_delivery, find_delivery, includes, is_paid, ◌>>=◌,
  ◌>>◌,
}
use fastmotion_delivery.Earnings.{round_rate}
use DeliveryStatus.{
  pending, searching_rider, rider_accepted, rider_assigned, rider_en_route_pickup, delivered,
  completed, cancelled,
}

-- `findById`, and the test that the delivery is the user's, which every handler of a customer's
-- delivery begins with
unfoldable pub own_delivery : (user id : ℕ) → Handler Delivery
own_delivery user id = do
  d ← find_delivery id
  require (d.customer == user) HttpError.forbidden
  pure d

-- `pricingConfig?.field || 0`
abbrev pub config_field : (PayoutConfig → Option ℕ) → Option PayoutConfig → ℕ
config_field f none = 0
config_field f (some c) = get_or (f c) 0

-- The fee for a delivery that was paid for, by its stage.
unfoldable pub cancellation_fee : Option PayoutConfig → Delivery → ℕ
cancellation_fee c d =
    if includes d.status (pending ∷ searching_rider ∷ [])
    then config_field (λ x. x.cancellation_fee_before_accept) c
    else if includes d.status (rider_accepted ∷ rider_assigned ∷ rider_en_route_pickup ∷ [])
    then config_field (λ x. x.cancellation_fee_after_accept) c
    else round_rate d.total_price (config_field (λ x. x.cancellation_fee_after_pickup_percentage) c)

-- `cancellationFee`
unfoldable pub fee_charged : Option PayoutConfig → Delivery → ℕ
fee_charged c d = if is_paid d.payment_status then cancellation_fee c d else 0

-- `refundAmount`, which may be negative
unfoldable pub refund_amount : Option PayoutConfig → Delivery → ℤ
refund_amount c d =
    if is_paid d.payment_status then pos d.total_price -ℤ pos (cancellation_fee c d) else pos 0

abbrev pub is_cancellable : DeliveryStatus → Bool
is_cancellable s = not (includes s (delivered ∷ completed ∷ cancelled ∷ []))

abbrev pub cancelled_by_customer : ℕ → Delivery → Delivery
cancelled_by_customer now d = record d { status = cancelled; cancelled_at = some now }

abbrev pub send_all : List Event → Handler ⊤
send_all es = modify λ s. record s { sent = s.sent ++ es }

-- A rider hears of the cancellation on the event bus and on the phone.
abbrev pub to_rider : (id : ℕ) → Option ℕ → List Event
to_rider id none = []
to_rider id (some r) = Event.delivery_cancelled id r ∷ Event.push_rider r ∷ []

-- The writes of a cancellation, and the fee and the refund of the response.
unfoldable pub cancel_stored : (user id now : ℕ) → Delivery → Handler (ℕ × ℤ)
cancel_stored user id now d = do
  config ← gets (λ s. s.config)
  let refund = refund_amount config d
  update_delivery id (cancelled_by_customer now)
  send (Event.status_update id cancelled)
  send (Event.system_chat id)
  when (ltb_ℤ (pos 0) refund) (send (Event.refund_requested id user (pos_part refund)))
  send_all (to_rider id d.rider)
  send (Event.push_customer user)
  pure (fee_charged config d, refund)

-- A delivery that waits in Redis for its payment.
unfoldable pub cancel_pending : (user id : ℕ) → Option PendingDelivery → Handler (ℕ × ℤ)
cancel_pending user id none = throw HttpError.not_found
cancel_pending user id (some p) =
    if p.user_id == user
    then modify (λ s. record s { pending_deliveries = erase id s.pending_deliveries })
      >> pure (0, pos 0)
    else throw HttpError.not_found

-- `cancelDelivery`
unfoldable pub cancel_delivery : (user id now : ℕ) → Handler (ℕ × ℤ)
cancel_delivery user id now s = elim (lookup id s.deliveries) [
  | none ↦ cancel_pending user id (lookup id s.pending_deliveries) s
  | some _ ↦
      (do
        d ← own_delivery user id
        require (is_cancellable d.status) HttpError.bad_request
        cancel_stored user id now d)
        s
]

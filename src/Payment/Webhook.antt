-- ===== src/Payment/Webhook.antt =====
-- apps/user-api/src/payment/payment.service.ts: the handlers of the payment provider's webhooks.
use fastmotion_delivery.Base.{ℕ, Bool, true, false, none, some, [], ◌∷◌, ◌++◌, if◌then◌else◌}
use fastmotion_delivery.Base.Dict.{lookup, erase}
use fastmotion_delivery.Model.{
  DeliveryStatus, PaymentStatus, Delivery, Payment, PendingDelivery, Purpose, TransactionCategory,
  Handler, Event, ⊤, pure, gets, when, modify, send, update_delivery, is_paid, is_quick, is_status,
  ◌>>=◌, ◌>>◌,
}
use fastmotion_delivery.Payment.Wallets.{
  get_or_create_wallet, process_wallet_payment, process_wallet_funding, update_payment,
  has_transaction,
}
use fastmotion_delivery.Payment.Initiate.{paid_status, marked_paid}

abbrev pub settled_payment : ℕ → Payment → Payment
settled_payment now p = record p { status = PaymentStatus.paid; paid_at = some now }

abbrev pub failed_payment : Payment → Payment
failed_payment p = record p { status = PaymentStatus.failed }

abbrev pub is_wallet_funding : Payment → Bool
is_wallet_funding p = elim p.delivery_request [
  | some _ ↦ false
  | none ↦ elim p.purpose [ Purpose.wallet_funding ↦ true | _ ↦ false ]
]

-- The wallet is funded unless a transaction has the reference of the payment.
unfoldable pub fund_once : (user amount reference : ℕ) → Handler ⊤
fund_once user amount reference s = elim (has_transaction reference s.transactions) [
  | true ↦ pure tt s
  | false ↦ (do _ ← get_or_create_wallet user; process_wallet_funding user amount reference) s
]

-- The delivery that is made from what was kept in Redis.
abbrev pub from_pending : PendingDelivery → Delivery
from_pending p = record {
  customer = p.user_id;
  rider = none;
  delivery_type = p.delivery_type;
  status = DeliveryStatus.payment_confirmed;
  total_price = p.total_price;
  service_fee = p.service_fee;
  time_multiplier = p.time_multiplier;
  payment_status = PaymentStatus.paid;
  scheduled_pickup_time = none;
  pickup_pin = none;
  delivery_pin = none;
  pickup_pin_verified = false;
  delivery_pin_verified = false;
  pickup_pin_overridden = false;
  delivery_pin_overridden = false;
  rider_accepted_at = none;
  rider_assigned_at = none;
  arrived_at_pickup_at = none;
  picked_up_at = none;
  arrived_at_dropoff_at = none;
  delivered_at = none;
  completed_at = none;
  cancelled_at = none;
  payment_requested_at = none;
  can_reschedule = false;
  payment_required_at_pickup = false;
  reschedule_count = 0;
  is_rated = false;
  has_dispute = false;
}

abbrev pub create_from_pending : (id : ℕ) → PendingDelivery → Handler ⊤
create_from_pending id p = modify λ s. record s {
  deliveries = s.deliveries ++ ((id, from_pending p) ∷ []);
  pending_deliveries = erase id s.pending_deliveries;
}

-- The writes to the delivery that is paid for.
unfoldable pub confirm_delivery : (user id pickup pin amount : ℕ) (quick : Bool) → Handler ⊤
confirm_delivery user id pickup pin amount quick = do
  update_delivery id (marked_paid (paid_status quick) pickup pin)
  send (Event.status_update id (paid_status quick))
  send (Event.payment_completed id user amount)

-- A delivery payment: of a delivery of the database, or of one that waits in Redis.
unfoldable pub settle_delivery : (user id pickup pin amount : ℕ) → Handler ⊤
settle_delivery user id pickup pin amount s = elim (lookup id s.deliveries) [
  | some d ↦ confirm_delivery user id pickup pin amount (is_quick d.delivery_type) s
  | none ↦ elim (lookup id s.pending_deliveries) [
    | none ↦ pure tt s
    | some p ↦
        (create_from_pending id p
            >> confirm_delivery user id pickup pin amount (is_quick p.delivery_type))
          s
  ]
]

-- What a payment is for.
unfoldable pub apply_payment : (p : Payment) (reference pickup pin amount : ℕ) → Handler ⊤
apply_payment p reference pickup pin amount s = elim (is_wallet_funding p) [
  | true ↦ fund_once p.user p.amount reference s
  | false ↦ elim p.delivery_request [
    | none ↦ pure tt s
    | some id ↦ settle_delivery p.user id pickup pin amount s
  ]
]

-- `handleWebhookPaymentSuccess`; `amount` is the amount that the provider reports.
unfoldable pub payment_success : (reference pickup pin amount now : ℕ) → Handler ⊤
payment_success reference pickup pin amount now s = elim (lookup reference s.payments) [
  | none ↦ pure tt s
  | some p ↦ elim (is_paid p.status) [
    | true ↦ pure tt s
    | false ↦
        (update_payment reference (settled_payment now)
            >> apply_payment p reference pickup pin amount)
          s
  ]
]

abbrev pub payment_reverted : Delivery → Delivery
payment_reverted d = record d {
  payment_status = PaymentStatus.failed;
  status =
      if is_quick d.delivery_type
      then DeliveryStatus.rider_arrived_pickup
      else DeliveryStatus.pending;
}

abbrev pub revert_delivery : (id : ℕ) → Handler ⊤
revert_delivery id s = elim (lookup id s.deliveries) [
  | none ↦ pure tt s
  | some d ↦
      when (is_status d.status DeliveryStatus.awaiting_payment)
        (update_delivery id payment_reverted
          >> send (Event.status_update id (payment_reverted d).status))
        s
]

-- `handleWebhookPaymentFailed`
unfoldable pub payment_failed : (reference : ℕ) → Handler ⊤
payment_failed reference s = elim (lookup reference s.payments) [
  | none ↦ pure tt s
  | some p ↦
      (update_payment reference failed_payment >> λ t. elim p.delivery_request [
        | none ↦ pure tt t
        | some id ↦ revert_delivery id t
      ])
        s
]

abbrev pub is_withdrawal : Purpose → Bool
is_withdrawal Purpose.wallet_withdrawal = true
is_withdrawal _ = false

abbrev pub debit_withdrawal : (user amount : ℕ) → Handler ⊤
debit_withdrawal user amount s = elim (lookup user s.wallets) [
  | none ↦ pure tt s
  | some w ↦ process_wallet_payment user w amount TransactionCategory.withdrawal s
]

-- `handleWebhookTransferSuccess`
unfoldable pub transfer_success : (reference now : ℕ) → Handler ⊤
transfer_success reference now s = elim (lookup reference s.payments) [
  | none ↦ pure tt s
  | some p ↦
      (update_payment reference (settled_payment now)
          >> when (is_withdrawal p.purpose) (debit_withdrawal p.user p.amount))
        s
]

-- `handleWebhookTransferFailed`
unfoldable pub transfer_failed : (reference : ℕ) → Handler ⊤
transfer_failed reference = do
  update_payment reference failed_payment
  o ← gets (λ s. lookup reference s.payments)
  λ s. elim o [ none ↦ pure tt s | some p ↦ send (Event.withdrawal_failed p.user p.amount) s ]

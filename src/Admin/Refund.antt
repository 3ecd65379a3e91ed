-- ===== src/Admin/Refund.antt =====
-- apps/admin-api/src/delivery/delivery.service.ts: `issueRefund`. `reference` is the reference that it
-- generates, and `full` says that the type of the refund is full.
use fastmotion_delivery.Base.{
  ℕ, ◌+◌, Bool, true, false, not, ◌&&◌, ◌||◌, Option, none, some, ◌==◌, leb, if◌then◌else◌, [], ◌∷◌,
}
use fastmotion_delivery.Base.Dict.{Dict}
use fastmotion_delivery.Model.{
  Payment, PaymentMethod, PaymentStatus, Purpose, Handler, HttpError, Event, ⊤, pure, gets, require,
  send, update_delivery, find_delivery, is_paid, ◌>>=◌, ◌>>◌,
}
use fastmotion_delivery.Payment.{create_payment, update_payment}
use fastmotion_delivery.Admin.Override.{refund_status, with_payment_status}

abbrev pub is_refundable : PaymentStatus → Bool
is_refundable PaymentStatus.paid = true
is_refundable PaymentStatus.partially_refunded = true
is_refundable _ = false

abbrev pub is_match : (id : ℕ) → Payment → Bool
is_match id p =
    (elim p.delivery_request [ none ↦ false | some j ↦ j == id ])
    && (not p.is_refund && is_paid p.status)

-- `findOne({ deliveryRequest, isRefund: false, status: 'paid' })`
unfoldable pub find_paid_payment : ℕ → Dict Payment → Option (ℕ × Payment)
find_paid_payment id [] = none
find_paid_payment id ((r, p) ∷ ps) = if is_match id p then some (r, p) else find_paid_payment id ps

abbrev pub issued_refund : (user id amount now : ℕ) → Option (ℕ × Payment) → Payment
issued_refund user id amount now original = record {
  user = user;
  delivery_request = some id;
  amount = amount;
  payment_method = elim original [ none ↦ PaymentMethod.wallet | some (_, p) ↦ p.payment_method ];
  status = PaymentStatus.paid;
  paid_at = some now;
  purpose = Purpose.refund_credit;
  is_refund = true;
  original_payment = elim original [ none ↦ none | some (r, _) ↦ some r ];
  refunded_amount = amount;
  refunded_at = some now;
}

abbrev pub refunded_more : (before amount now : ℕ) → Payment → Payment
refunded_more before amount now p = record p {
  refunded_amount = before + amount;
  refunded_at = some now;
}

-- The payment that is refunded, if there is one.
unfoldable pub note_refund : (amount now : ℕ) → Option (ℕ × Payment) → Handler ⊤
note_refund amount now none = pure tt
note_refund amount now (some (r, p)) = update_payment r (refunded_more p.refunded_amount amount now)

-- `issueRefund`
unfoldable pub issue_refund : (id amount : ℕ) (full : Bool) (reference now : ℕ) → Handler ⊤
issue_refund id amount full reference now = do
  d ← find_delivery id
  require (is_refundable d.payment_status) HttpError.bad_request
  require (leb amount d.total_price) HttpError.bad_request
  update_delivery id (with_payment_status (refund_status (full || leb d.total_price amount)))
  original ← gets (λ s. find_paid_payment id s.payments)
  create_payment reference (issued_refund d.customer id amount now original)
  note_refund amount now original
  send (Event.admin_logged id)
  send (Event.push_customer d.customer)

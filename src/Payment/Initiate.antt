-- ===== src/Payment/Initiate.antt =====
-- apps/user-api/src/payment/payment.service.ts: `initiatePayment`, `processWalletPayment`,
-- `fundWallet`, `withdrawFromWallet`, `getWalletBalance` and `processRefund`.
use fastmotion_delivery.Base.{
  ℕ, ◌+◌, Bool, true, false, not, ◌||◌, Option, none, some, List, [], ◌∷◌, ◌==◌, leb, if◌then◌else◌,
}
use fastmotion_delivery.Base.Int.{ℤ, pos, ◌+ℤ◌, ltb_ℤ}
use fastmotion_delivery.Base.Dict.{lookup}
use fastmotion_delivery.Model.{
  DeliveryStatus, PaymentStatus, Delivery, Payment, PaymentMethod, PendingDelivery, Purpose, Wallet,
  TransactionCategory, Handler, HttpError, Event, ⊤, pure, gets, some_or, require, when, send,
  throw, update_delivery, without_pins, includes, is_paid, is_quick, ◌>>=◌, ◌>>◌,
}
use fastmotion_delivery.Payment.Wallets.{
  get_or_create_wallet, process_wallet_payment, credit_refund, create_payment, update_payment,
  update_wallet, compute_wallet_balance, find_payment_by_delivery, sum_type,
}
use DeliveryStatus.{
  pending, searching_rider, rider_accepted, rider_assigned, rider_en_route_pickup,
  rider_arrived_pickup, awaiting_payment, payment_confirmed, scheduled,
}

abbrev pub payable_statuses : List DeliveryStatus
payable_statuses =
    awaiting_payment ∷ rider_arrived_pickup ∷ scheduled ∷ pending ∷ searching_rider ∷ rider_accepted
    ∷ rider_assigned ∷ rider_en_route_pickup ∷ []

abbrev pub is_wallet : PaymentMethod → Bool
is_wallet PaymentMethod.wallet = true
is_wallet _ = false

abbrev pub new_payment :
    (user : ℕ) → Option ℕ → ℕ → PaymentMethod → PaymentStatus → Option ℕ → Purpose → Payment
new_payment user delivery amount method status paid_at purpose = record {
  user = user;
  delivery_request = delivery;
  amount = amount;
  payment_method = method;
  status = status;
  paid_at = paid_at;
  purpose = purpose;
  is_refund = false;
  original_payment = none;
  refunded_amount = 0;
  refunded_at = none;
}

-- The status of a delivery that is paid for.
abbrev pub paid_status : Bool → DeliveryStatus
paid_status quick = if quick then payment_confirmed else scheduled

abbrev pub marked_paid : (status : DeliveryStatus) (pickup delivery : ℕ) → Delivery → Delivery
marked_paid status pickup delivery d = record d {
  payment_status = PaymentStatus.paid;
  pickup_pin = some pickup;
  delivery_pin = some delivery;
  status = status;
}

-- `processWalletPayment` of the service; `pickup` and `pin` are the PINs that it generates.
unfoldable pub pay_from_wallet :
    (user id reference pickup pin now : ℕ) (d : Delivery) (amount : ℕ) → Handler ⊤
pay_from_wallet user id reference pickup pin now d amount = do
  w ← get_or_create_wallet user
  require (not w.is_locked) HttpError.bad_request
  require (not (ltb_ℤ w.deposit_balance (pos amount))) HttpError.bad_request
  create_payment reference (
      new_payment user (some id) amount PaymentMethod.wallet PaymentStatus.paid (some now)
        Purpose.delivery_payment)
  process_wallet_payment user w amount TransactionCategory.delivery_fee
  update_delivery id (marked_paid (paid_status (is_quick d.delivery_type)) pickup pin)
  send (Event.status_update id (paid_status (is_quick d.delivery_type)))
  send (Event.payment_completed id user amount)

-- `initiateMonnifyPayment` and `initiateMonnifyPaymentFromPending`: the pending payment is recorded
-- before the call of the provider, which answers or fails (`answers`).
abbrev pub pay_by_provider :
    (user id reference amount : ℕ) → PaymentMethod → (answers : Bool) → Handler ⊤
pay_by_provider user id reference amount method answers = do
  create_payment reference
      (new_payment user (some id) amount method PaymentStatus.pending none Purpose.delivery_payment)
  require answers HttpError.unavailable

abbrev pub is_paid_payment : Option (ℕ × Payment) → Bool
is_paid_payment none = false
is_paid_payment (some (_, p)) = is_paid p.status

-- A delivery that is still in Redis.
abbrev pub initiate_pending :
    (user id reference : ℕ) → PaymentMethod → (answers : Bool) → PendingDelivery → Handler ⊤
initiate_pending user id reference method answers p = do
  require (p.user_id == user) HttpError.forbidden
  existing ← gets (λ s. find_payment_by_delivery id s.payments)
  require (not (is_paid_payment existing)) HttpError.bad_request
  require (not (p.total_price == 0)) HttpError.bad_request
  require (not (is_wallet method)) HttpError.bad_request
  pay_by_provider user id reference p.total_price method answers

-- A delivery of the database.
unfoldable pub initiate_stored :
    (user id reference : ℕ)
    → PaymentMethod
    → (pickup pin now : ℕ) (answers : Bool) (d : Delivery) → Handler ⊤
initiate_stored user id reference method pickup pin now answers d = do
  require (d.customer == user) HttpError.forbidden
  existing ← gets (λ s. find_payment_by_delivery id s.payments)
  require (not (is_paid_payment existing)) HttpError.bad_request
  require (includes d.status payable_statuses) HttpError.bad_request
  require (not (d.total_price == 0)) HttpError.bad_request
  λ s. elim (is_wallet method) [
    | true ↦ pay_from_wallet user id reference pickup pin now d d.total_price s
    | false ↦ pay_by_provider user id reference d.total_price method answers s
  ]

-- `initiatePayment`
unfoldable pub initiate_payment :
    (user id reference : ℕ) → PaymentMethod → (pickup pin now : ℕ) (answers : Bool) → Handler ⊤
initiate_payment user id reference method pickup pin now answers s = elim (lookup id s.deliveries) [
  | some d ↦ initiate_stored user id reference method pickup pin now answers (without_pins d) s
  | none ↦ elim (lookup id s.pending_deliveries) [
    | none ↦ throw HttpError.not_found s
    | some p ↦ initiate_pending user id reference method answers p s
  ]
]

-- `fundWallet`
unfoldable pub fund_wallet :
    (user amount reference : ℕ) → PaymentMethod → (answers : Bool) → Handler ⊤
fund_wallet user amount reference method answers = do
  w ← get_or_create_wallet user
  require (not w.is_locked) HttpError.bad_request
  create_payment reference
      (new_payment user none amount method PaymentStatus.pending none Purpose.wallet_funding)
  require answers HttpError.unavailable

-- `withdrawFromWallet`
unfoldable pub withdraw_from_wallet : (user amount reference : ℕ) → Handler ⊤
withdraw_from_wallet user amount reference = do
  o ← gets (λ s. lookup user s.wallets)
  w ← some_or o HttpError.not_found
  require (not w.is_locked) HttpError.bad_request
  require (not (ltb_ℤ w.withdrawable_balance (pos amount))) HttpError.bad_request
  create_payment reference (
      new_payment user none amount PaymentMethod.bank_transfer PaymentStatus.pending none
        Purpose.wallet_withdrawal)
  send (Event.withdrawal_requested user amount)

abbrev pub synced : (balance : ℤ) (credits debits : ℕ) → Wallet → Wallet
synced balance credits debits w = record w {
  deposit_balance = balance;
  total_balance = balance +ℤ w.withdrawable_balance;
  total_deposited = pos credits;
  total_withdrawn = pos debits;
}

-- `getWalletBalance`; the result is the balance that it shows.
unfoldable pub get_wallet_balance : (user : ℕ) → Handler ℤ
get_wallet_balance user = do
  w ← get_or_create_wallet user
  balance ← gets (λ s. compute_wallet_balance user s.transactions)
  credits ← gets (λ s. sum_type false user s.transactions)
  debits ← gets (λ s. sum_type true user s.transactions)
  when (ltb_ℤ w.deposit_balance balance || ltb_ℤ balance w.deposit_balance)
      (update_wallet user (synced balance credits debits))
  pure balance

abbrev pub refund_payment : (user id amount original now : ℕ) → Payment
refund_payment user id amount original now = record {
  user = user;
  delivery_request = some id;
  amount = amount;
  payment_method = PaymentMethod.wallet;
  status = PaymentStatus.paid;
  paid_at = some now;
  purpose = Purpose.refund_credit;
  is_refund = true;
  original_payment = some original;
  refunded_amount = 0;
  refunded_at = none;
}

abbrev pub refunded_by : (read : Payment) (amount now : ℕ) → Payment → Payment
refunded_by read amount now p = record p {
  refunded_amount = read.refunded_amount + amount;
  refunded_at = some now;
  status =
      if leb read.amount amount then PaymentStatus.refunded else PaymentStatus.partially_refunded;
}

-- `processRefund`; `reference` is the reference of the payment that records the refund.
unfoldable pub process_refund : (user id amount reference now : ℕ) → Handler ⊤
process_refund user id amount reference now = do
  w ← get_or_create_wallet user
  found ← gets (λ s. find_payment_by_delivery id s.payments)
  (original, p) ← some_or found HttpError.not_found
  credit_refund user w amount original
  create_payment reference (refund_payment user id amount original now)
  update_payment original (refunded_by p amount now)
  send (Event.payment_refunded user id amount)

-- ===== src/Payment/Outcomes.antt =====
-- apps/user-api/src/payment/payment.service.ts: the outcome of a payment, a transfer and a refund, and
-- of reports that come twice.
use fastmotion_delivery.Base.{
  ℕ, ◌⊎◌, ◌≡◌, ◌↔◌, refl, inl, inr, Bool, true, false, not, none, some, arith, Option-cases,
  Bool-cases, ◌==◌, if◌then◌else◌,
}
use fastmotion_delivery.Base.Int.{pos, ltb_ℤ, ◌≤ℤ◌}
use fastmotion_delivery.Base.Dict.{lookup, update, lookup-update_self}
use fastmotion_delivery.Model.{
  Db, Delivery, DeliveryStatus, Payment, PaymentMethod, Purpose, Wallet, ok, is_ok, is_paid,
  is_quick, includes,
}
use fastmotion_delivery.Payment.Wallets.{
  get_or_create_wallet, process_wallet_payment, process_wallet_funding, credit_refund,
  find_payment_by_delivery, debited, funded,
}
use fastmotion_delivery.Payment.Initiate.{
  initiate_payment, initiate_stored, pay_from_wallet, payable_statuses, paid_status, process_refund,
  is_paid_payment, marked_paid,
}
use fastmotion_delivery.Payment.Webhook.{
  payment_success, payment_failed, transfer_success, apply_payment, fund_once, settle_delivery,
  confirm_delivery, settled_payment, failed_payment,
}

module _ (reference pickup pin amount now : ℕ) where
  apply_payment-payments :
      (p : Payment) (s : Db)
      → (apply_payment p reference pickup pin amount s).1.payments ≡ s.payments
  unfolding apply_payment fund_once settle_delivery confirm_delivery get_or_create_wallet
      process_wallet_funding
  apply_payment-payments p s = ground arith

  paid_after :
      (s : Db)
      → let t = (payment_success reference pickup pin amount now s).1 in
        (lookup reference s.payments ≡ none) × (t ≡ s)
        ⊎ ((p : Payment) × (lookup reference t.payments ≡ some p) × (is_paid p.status ≡ true))
  unfolding payment_success
  paid_after s = elim (Option-cases (lookup reference s.payments)) [
    | inl e ↦ inl (e, ground arith)
    | inr (p, e) ↦ elim (Bool-cases (is_paid p.status)) [
      | inl h ↦ inr (p, ground arith, h)
      | inr h ↦ inr (
        settled_payment now p,
        ground (
          arith,
          apply_payment-payments p
              (record s { payments = update reference (settled_payment now) s.payments }),
          lookup-update_self reference (settled_payment now) s.payments e,
        ),
        refl,
      )
    ]
  ]

-- A webhook of a payment that is repeated, with whatever PINs, amount and time, changes nothing.
pub success_repeated :
    (reference pickup pin amount now pickup' pin' amount' now' : ℕ) (s : Db)
    → let t = (payment_success reference pickup pin amount now s).1 in
      payment_success reference pickup' pin' amount' now' t ≡ (ok tt, t)
unfolding payment_success
success_repeated reference pickup pin amount now pickup' pin' amount' now' s =
    elim (paid_after reference pickup pin amount now s) [
      | inl (e, same) ↦ ground arith
      | inr (p, e, h) ↦ ground arith
    ]

-- What it takes to pay for a stored delivery from the wallet: it is the user's own, in a status that
-- can be paid for and not free; the payment that is found for it is not paid; and the wallet is not
-- locked and holds the price.
abbrev pub CanPay : (user id : ℕ) → Delivery → Db → Type 0
CanPay user id d s =
    (d.customer ≡ user)
    × (is_paid_payment (find_payment_by_delivery id s.payments) ≡ false)
    × (includes d.status payable_statuses ≡ true)
    × ((d.total_price == 0) ≡ false)
    × (elim (lookup user s.wallets) [
      | none ↦ false
      | some w ↦ if w.is_locked then false else not (ltb_ℤ w.deposit_balance (pos d.total_price))
    ]
        ≡ true)

-- A stored delivery is paid for from the wallet exactly when the user can pay for it so.
pub wallet_payment_iff :
    (user id reference pickup pin now : ℕ) (answers : Bool) (d : Delivery) (s : Db)
    → lookup id s.deliveries ≡ some d
    → let r = initiate_payment user id reference PaymentMethod.wallet pickup pin now answers s in
      (is_ok r.0 ≡ true) ↔ CanPay user id d s
unfolding initiate_payment initiate_stored pay_from_wallet process_wallet_payment
    get_or_create_wallet
wallet_payment_iff user id reference pickup pin now answers d s e = ground arith

-- A payment from the wallet that succeeds takes the price from the deposit balance, which held it, and
-- the delivery is paid, has both PINs and the status that goes with its type.
pub wallet_payment_takes :
    (user id reference pickup pin now : ℕ) (answers : Bool) (d : Delivery) (w : Wallet) (s : Db)
    → lookup id s.deliveries ≡ some d
    → lookup user s.wallets ≡ some w
    → is_ok (initiate_payment user id reference PaymentMethod.wallet pickup pin now answers s).0
      ≡ true
    → let t =
        (initiate_payment user id reference PaymentMethod.wallet pickup pin now answers s).1 in
      (lookup user t.wallets ≡ some (debited d.total_price w))
      × (pos d.total_price ≤ℤ w.deposit_balance)
      × (lookup id t.deliveries
          ≡ some (marked_paid (paid_status (is_quick d.delivery_type)) pickup pin d))
unfolding initiate_payment initiate_stored pay_from_wallet process_wallet_payment
    get_or_create_wallet
wallet_payment_takes user id reference pickup pin now answers d w s e f h = ground (
  arith,
  lookup-update_self user (debited d.total_price) s.wallets f,
  lookup-update_self id (marked_paid (paid_status (is_quick d.delivery_type)) pickup pin)
      s.deliveries e,
)

-- The transfer of a withdrawal takes its amount from the deposit balance, and again when its webhook
-- is repeated.
pub transfer_repeated :
    (reference now later : ℕ) (p : Payment) (w : Wallet) (s : Db)
    → lookup reference s.payments ≡ some p
    → p.purpose ≡ Purpose.wallet_withdrawal
    → lookup p.user s.wallets ≡ some w
    → let t = (transfer_success reference now s).1 in
      let u = (transfer_success reference later t).1 in
      lookup p.user u.wallets ≡ some (debited p.amount (debited p.amount w))
unfolding transfer_success process_wallet_payment
transfer_repeated reference now later p w s e f g = ground (
  arith,
  lookup-update_self reference (settled_payment now) s.payments e,
  lookup-update_self p.user (debited p.amount) s.wallets g,
  lookup-update_self p.user (debited p.amount) (update p.user (debited p.amount) s.wallets)
      {v = debited p.amount w},
)

-- A failure that is reported for the payment of a delivered delivery opens the payment again: the next
-- report of its success puts the delivery back to the status of one just paid for, and replaces both
-- PINs.
pub paid_again :
    (reference id pickup pin amount now : ℕ) (p : Payment) (d : Delivery) (s : Db)
    → lookup reference s.payments ≡ some p
    → p.delivery_request ≡ some id
    → lookup id s.deliveries ≡ some d
    → d.status ≡ DeliveryStatus.delivered
    → let t = (payment_failed reference s).1 in
      let u = (payment_success reference pickup pin amount now t).1 in
      lookup id u.deliveries
      ≡ some (marked_paid (paid_status (is_quick d.delivery_type)) pickup pin d)
unfolding payment_failed payment_success apply_payment settle_delivery confirm_delivery
paid_again reference id pickup pin amount now p d s e f g h = ground (
  arith,
  lookup-update_self reference failed_payment s.payments e,
  lookup-update_self id (marked_paid (paid_status (is_quick d.delivery_type)) pickup pin)
      s.deliveries g,
)

-- A refund is not bounded by the price: once there is a payment for the delivery, whatever amount is
-- asked for is credited to the wallet.
pub refund_unbounded :
    (user id amount reference now original : ℕ) (p : Payment) (w : Wallet) (s : Db)
    → lookup user s.wallets ≡ some w
    → find_payment_by_delivery id s.payments ≡ some (original, p)
    → let r = process_refund user id amount reference now s in
      (r.0 ≡ ok tt) × (lookup user r.1.wallets ≡ some (funded amount w))
unfolding process_refund credit_refund get_or_create_wallet
refund_unbounded user id amount reference now original p w s e f =
    ground (arith, lookup-update_self user (funded amount) s.wallets e)

-- ===== src/System/ByPayment.antt =====
-- apps/user-api/src/payment: what payments, and the events of the payment provider, do to the riders
-- of the deliveries.
use fastmotion_delivery.Base.{
  ℕ, ◌≡◌, ◌⊎◌, inl, inr, refl, sym, ap, ◌∙◌, Bool, true, false, some, arith, Option-cases,
  Bool-cases,
}
use mathlib.Core.Option.{some-injective}
use fastmotion_delivery.Base.Dict.{lookup, update, Always-append}
use fastmotion_delivery.Model.{
  Db, Delivery, DeliveryStatus, PendingDelivery, Payment, PaymentMethod, is_paid, is_quick,
  without_pins,
}
use fastmotion_delivery.Payment.{
  PaymentRequest, serve, initiate_payment, initiate_stored, pay_from_wallet, fund_wallet,
  withdraw_from_wallet, get_wallet_balance, process_refund, payment_success, payment_failed,
  transfer_success, transfer_failed, get_or_create_wallet, credit_refund, process_wallet_payment,
  process_wallet_funding, fund_once, confirm_delivery, settle_delivery, apply_payment,
  revert_delivery, marked_paid, paid_status, from_pending, create_from_pending, payment_reverted,
  is_wallet_funding,
}
use fastmotion_delivery.Rider.Workflow.Manned.{RiderRides, IsManned}
use fastmotion_delivery.System.Writes.{same-IsManned, changed-IsManned}

module _ (s : Db) where
  wallet-deliveries : (user : ℕ) → (get_or_create_wallet user s).1.deliveries ≡ s.deliveries
  unfolding get_or_create_wallet
  wallet-deliveries user = ground arith

  fund-deliveries :
      (user amount reference : ℕ) (method : PaymentMethod) (answers : Bool)
      → (fund_wallet user amount reference method answers s).1.deliveries ≡ s.deliveries
  unfolding fund_wallet get_or_create_wallet
  fund-deliveries user amount reference method answers = ground arith

  withdraw-deliveries :
      (user amount reference : ℕ)
      → (withdraw_from_wallet user amount reference s).1.deliveries ≡ s.deliveries
  unfolding withdraw_from_wallet
  withdraw-deliveries user amount reference = ground arith

  balance-deliveries : (user : ℕ) → (get_wallet_balance user s).1.deliveries ≡ s.deliveries
  unfolding get_wallet_balance get_or_create_wallet
  balance-deliveries user = ground arith

  shown-deliveries :
      (user : ℕ) → (serve (PaymentRequest.show_balance user) s).1.deliveries ≡ s.deliveries
  unfolding serve get_wallet_balance get_or_create_wallet
  shown-deliveries user = ground arith

  refund-deliveries :
      (user id amount reference now : ℕ)
      → (process_refund user id amount reference now s).1.deliveries ≡ s.deliveries
  unfolding process_refund credit_refund get_or_create_wallet
  refund-deliveries user id amount reference now = ground arith

  transfer-deliveries :
      (reference now : ℕ) → (transfer_success reference now s).1.deliveries ≡ s.deliveries
  unfolding transfer_success process_wallet_payment
  transfer-deliveries reference now = ground arith

  untransferred-deliveries :
      (reference : ℕ) → (transfer_failed reference s).1.deliveries ≡ s.deliveries
  unfolding transfer_failed
  untransferred-deliveries reference = ground arith

  fund_once-deliveries :
      (user amount reference : ℕ) → (fund_once user amount reference s).1.deliveries ≡ s.deliveries
  unfolding fund_once process_wallet_funding get_or_create_wallet
  fund_once-deliveries user amount reference = ground arith

  paid_wallet-deliveries :
      (user id reference pickup pin now amount : ℕ) (d : Delivery)
      → let t = (pay_from_wallet user id reference pickup pin now d amount s).1 in
        (t.deliveries ≡ s.deliveries)
        ⊎ (t.deliveries
            ≡ update id
                (marked_paid (paid_status (is_quick d.delivery_type)) pickup pin)
                s.deliveries)
  unfolding pay_from_wallet process_wallet_payment get_or_create_wallet
  paid_wallet-deliveries user id reference pickup pin now amount d = ground arith

  stored-deliveries :
      (user id reference : ℕ) (method : PaymentMethod) (pickup pin now : ℕ) (answers : Bool)
      (d : Delivery)
      → let t = (initiate_stored user id reference method pickup pin now answers d s).1 in
        (t.deliveries ≡ s.deliveries)
        ⊎ (t.deliveries
            ≡ update id
                (marked_paid (paid_status (is_quick d.delivery_type)) pickup pin)
                s.deliveries)
  unfolding initiate_stored
  stored-deliveries user id reference method pickup pin now answers d =
      ground (arith, paid_wallet-deliveries user id reference pickup pin now d.total_price d)

  initiate-deliveries :
      (user id reference : ℕ) (method : PaymentMethod) (pickup pin now : ℕ) (answers : Bool)
      → let t = (initiate_payment user id reference method pickup pin now answers s).1 in
        (t.deliveries ≡ s.deliveries)
        ⊎ ((q : Bool) × (t.deliveries
              ≡ update id (marked_paid (paid_status q) pickup pin) s.deliveries))
  unfolding initiate_payment
  initiate-deliveries user id reference method pickup pin now answers =
      elim (Option-cases (lookup id s.deliveries)) [
        | inl e ↦ inl (ground arith)
        | inr (d, e) ↦
            elim (stored-deliveries user id reference method pickup pin now answers
              (without_pins d)) [
                | inl f ↦ inl (ground arith)
                | inr f ↦ inr (is_quick d.delivery_type, ground arith)
              ]
      ]

  revert-deliveries :
      (id : ℕ)
      → let t = (revert_delivery id s).1 in
        (t.deliveries ≡ s.deliveries)
        ⊎ ((d : Delivery) × (lookup id s.deliveries ≡ some d)
            × (d.status ≡ DeliveryStatus.awaiting_payment)
            × (t.deliveries ≡ update id payment_reverted s.deliveries))
  revert-deliveries id = elim (Option-cases (lookup id s.deliveries)) [
    | inl e ↦ inl (ground arith)
    | inr (d, e) ↦ ground arith
  ]

paid-RiderRides :
    (quick : Bool) (pickup pin : ℕ) (d : Delivery)
    → RiderRides (marked_paid (paid_status quick) pickup pin d).status d.rider
paid-RiderRides true pickup pin d = tt
paid-RiderRides false pickup pin d = tt

reverted-RiderRides :
    (d : Delivery)
    → d.status ≡ DeliveryStatus.awaiting_payment
    → RiderRides d.status d.rider
    → RiderRides (payment_reverted d).status (payment_reverted d).rider
reverted-RiderRides d e h = ground arith

module _ (s : Db) (h : IsManned s) where
  confirm-IsManned :
      (user id pickup pin amount : ℕ) (quick : Bool)
      → IsManned (confirm_delivery user id pickup pin amount quick s).1
  unfolding confirm_delivery
  confirm-IsManned user id pickup pin amount quick =
      changed-IsManned id (marked_paid (paid_status quick) pickup pin) s
        (confirm_delivery user id pickup pin amount quick s).1 h
        (λ d e fits. paid-RiderRides quick pickup pin d) refl

  initiate-IsManned :
      (user id reference : ℕ) (method : PaymentMethod) (pickup pin now : ℕ) (answers : Bool)
      → IsManned (initiate_payment user id reference method pickup pin now answers s).1
  initiate-IsManned user id reference method pickup pin now answers =
      let t = (initiate_payment user id reference method pickup pin now answers s).1 in
      elim (initiate-deliveries s user id reference method pickup pin now answers) [
        | inl e ↦ same-IsManned s t h e
        | inr (q, e) ↦
            changed-IsManned id (marked_paid (paid_status q) pickup pin) s t h
              (λ d f fits. paid-RiderRides q pickup pin d) e
      ]

  revert-IsManned : (id : ℕ) → IsManned (revert_delivery id s).1
  revert-IsManned id =
      let t = (revert_delivery id s).1 in
      elim (revert-deliveries s id) [
        | inl e ↦ same-IsManned s t h e
        | inr (d, e, stage, u) ↦
            changed-IsManned id payment_reverted s t h
              (λ v f fits.
                reverted-RiderRides v
                  (ap (λ (x : Delivery). x.status) (some-injective v d (sym f ∙ e)) ∙ stage) fits)
              u
      ]

created-IsManned :
    (id : ℕ) (p : PendingDelivery) (s : Db) → IsManned s → IsManned (create_from_pending id p s).1
created-IsManned id p s h =
    Always-append (λ _ d. RiderRides d.status d.rider) id (from_pending p) s.deliveries h tt

settle-IsManned :
    (user id pickup pin amount : ℕ) (s : Db)
    → IsManned s
    → IsManned (settle_delivery user id pickup pin amount s).1
unfolding settle_delivery
settle-IsManned user id pickup pin amount s h = elim (Option-cases (lookup id s.deliveries)) [
  | inr (d, e) ↦
      rw (e, settle_delivery)
        (confirm-IsManned s h user id pickup pin amount (is_quick d.delivery_type))
  | inl e ↦ elim (Option-cases (lookup id s.pending_deliveries)) [
    | inl f ↦ rw (e, settle_delivery) (rw f h)
    | inr (p, f) ↦
        rw (e, settle_delivery)
          (rw f (
            confirm-IsManned (create_from_pending id p s).1 (created-IsManned id p s h) user id
              pickup pin amount (is_quick p.delivery_type)))
  ]
]

apply-IsManned :
    (p : Payment) (reference pickup pin amount : ℕ) (s : Db)
    → IsManned s
    → IsManned (apply_payment p reference pickup pin amount s).1
unfolding apply_payment
apply-IsManned p reference pickup pin amount s h = elim (Bool-cases (is_wallet_funding p)) [
  | inl b ↦
      rw (b, apply_payment)
        (same-IsManned s (fund_once p.user p.amount reference s).1 h
          (fund_once-deliveries s p.user p.amount reference))
  | inr b ↦ elim (Option-cases p.delivery_request) [
    | inl e ↦ rw (b, apply_payment) (rw e h)
    | inr (id, e) ↦ rw (b, apply_payment) (rw e (settle-IsManned p.user id pickup pin amount s h))
  ]
]

success-IsManned :
    (reference pickup pin amount now : ℕ) (s : Db)
    → IsManned s
    → IsManned (payment_success reference pickup pin amount now s).1
unfolding payment_success
success-IsManned reference pickup pin amount now s h =
    elim (Option-cases (lookup reference s.payments)) [
      | inl e ↦ rw (e, payment_success) h
      | inr (p, e) ↦ elim (Bool-cases (is_paid p.status)) [
        | inl b ↦ rw (e, payment_success) (rw (b, payment_success) h)
        | inr b ↦
            rw (e, payment_success)
              (rw (b, payment_success) (apply-IsManned p reference pickup pin amount _ h))
      ]
    ]

failed-IsManned : (reference : ℕ) (s : Db) → IsManned s → IsManned (payment_failed reference s).1
unfolding payment_failed
failed-IsManned reference s h = elim (Option-cases (lookup reference s.payments)) [
  | inl e ↦ rw (e, payment_failed) h
  | inr (p, e) ↦ elim (Option-cases p.delivery_request) [
    | inl f ↦ rw (e, payment_failed) (rw f h)
    | inr (id, f) ↦ rw (e, payment_failed) (rw f (revert-IsManned _ h id))
  ]
]

pub serve-IsManned : (r : PaymentRequest) (s : Db) → IsManned s → IsManned (serve r s).1
unfolding serve
serve-IsManned (PaymentRequest.initiate user id reference method pickup pin now answers) s h =
    initiate-IsManned s h user id reference method pickup pin now answers
serve-IsManned (PaymentRequest.fund user amount reference method answers) s h =
    same-IsManned s (fund_wallet user amount reference method answers s).1 h
      (fund-deliveries s user amount reference method answers)
serve-IsManned (PaymentRequest.withdraw user amount reference) s h =
    same-IsManned s (withdraw_from_wallet user amount reference s).1 h
      (withdraw-deliveries s user amount reference)
serve-IsManned (PaymentRequest.show_balance user) s h =
    same-IsManned s (serve (PaymentRequest.show_balance user) s).1 h (shown-deliveries s user)
serve-IsManned (PaymentRequest.refund user id amount reference now) s h =
    same-IsManned s (process_refund user id amount reference now s).1 h
      (refund-deliveries s user id amount reference now)
serve-IsManned (PaymentRequest.paid reference pickup pin amount now) s h =
    success-IsManned reference pickup pin amount now s h
serve-IsManned (PaymentRequest.not_paid reference) s h = failed-IsManned reference s h
serve-IsManned (PaymentRequest.transferred reference now) s h =
    same-IsManned s (transfer_success reference now s).1 h (transfer-deliveries s reference now)
serve-IsManned (PaymentRequest.not_transferred reference) s h =
    same-IsManned s (transfer_failed reference s).1 h (untransferred-deliveries s reference)

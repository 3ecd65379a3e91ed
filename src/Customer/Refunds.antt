-- ===== src/Customer/Refunds.antt =====
-- What a cancellation charges and gives back: `cancelDelivery`, with the refund listener that hears
-- of it and the services that can touch a cancelled delivery.
use fastmotion_delivery.Base.{
  ℕ, suc, none, ◌∙◌, sym, ap, ◌≤◌, ◌≡◌, ◌⊎◌, ◌-◌, refl, true, false, Bool, List, [], ◌∷◌, ◌++◌,
  if◌then◌else◌, Option, some, arith, Bool-cases, inl, inr,
}
use fastmotion_delivery.Base.Int.{ℤ, pos, ltb_ℤ, ◌+ℤ◌, ◌-ℤ◌, pos_part, -ℤ_parts, int_laws}
use mathlib.Core.List.{append_assoc}
use fastmotion_delivery.Base.Dict.{lookup, lookup-update_self}
use fastmotion_delivery.Model.{
  Db, Delivery, DeliveryStatus, Event, PayoutConfig, Payment, Wallet, ok, is_paid, without_pins,
}
use fastmotion_delivery.Payment.{
  process_refund, hear_all, credit_refund, get_or_create_wallet, find_payment_by_delivery, funded,
}
use fastmotion_delivery.Customer.Cancel.{
  own_delivery, cancel_delivery, cancel_stored, is_cancellable, refund_amount, fee_charged,
  cancellation_fee, cancelled_by_customer, to_rider,
}

-- The amount that a cancellation asks the payment service to give back.
abbrev pub refund_of : Option PayoutConfig → Delivery → ℕ
refund_of c d = pos_part (refund_amount c d)

module _ (user id now : ℕ) (d : Delivery) (s : Db) where
  -- A delivery of the customer's own that can be cancelled.
  abbrev pub CanCancel : Type 0
  CanCancel =
      (lookup id s.deliveries ≡ some d) × (d.customer ≡ user) × (is_cancellable d.status ≡ true)

  pub cancel_open :
      CanCancel → cancel_delivery user id now s ≡ cancel_stored user id now (without_pins d) s
  unfolding cancel_delivery own_delivery
  cancel_open (e, own, allowed) = ground arith

  cancel_stored_lem :
      lookup id s.deliveries ≡ some d
      → let r = cancel_stored user id now (without_pins d) s in
        (r.0 ≡ ok (fee_charged s.config d, refund_amount s.config d))
        × (lookup id r.1.deliveries ≡ some (cancelled_by_customer now d))
        × (r.1.wallets ≡ s.wallets)
        × (r.1.payments ≡ s.payments)
  unfolding cancel_stored fee_charged refund_amount cancellation_fee
  cancel_stored_lem e =
      ground (arith, lookup-update_self id (cancelled_by_customer now) s.deliveries e)

  -- A cancellation of the customer's own delivery, at a stage where that is allowed, answers with the
  -- fee and the refund, marks the delivery as cancelled and moves no money itself.
  pub cancel_settles :
      CanCancel
      → let r = cancel_delivery user id now s in
        (r.0 ≡ ok (fee_charged s.config d, refund_amount s.config d))
        × (lookup id r.1.deliveries ≡ some (cancelled_by_customer now d))
        × (r.1.wallets ≡ s.wallets)
        × (r.1.payments ≡ s.payments)
  cancel_settles can = rw (cancel_open can) (cancel_stored_lem can.0)

pos_part-sub_le : (a b : ℕ) → pos_part (pos a -ℤ pos b) ≤ a
pos_part-sub_le a b = grind (arith, -ℤ_parts (pos a) (pos b))

-- What a cancellation gives back is at most the price, and nothing for a delivery that is not paid.
pub refund_bounds :
    (c : Option PayoutConfig) (d : Delivery)
    → (refund_of c d ≤ d.total_price) × ((is_paid d.payment_status ≡ true) ⊎ (refund_of c d ≡ 0))
unfolding refund_amount
refund_bounds c d = elim (Bool-cases (is_paid d.payment_status)) [
  | inl e ↦ rw e (pos_part-sub_le d.total_price (cancellation_fee c d), inl refl)
  | inr e ↦ rw e (omega arith, inr refl)
]

sub_pos : (a b : ℕ) → ltb_ℤ (pos 0) (pos a -ℤ pos b) ≡ true → pos_part (pos a -ℤ pos b) ≡ a - b
sub_pos a b h = grind (arith, -ℤ_parts (pos a) (pos b))

sub_none : (a b : ℕ) → ltb_ℤ (pos 0) (pos a -ℤ pos b) ≡ false → a - b ≡ 0
sub_none a b h = grind (arith, -ℤ_parts (pos a) (pos b))

add_none : (z : ℤ) (n : ℕ) → n ≡ 0 → z ≡ z +ℤ pos n
add_none z n h = rw h (grind int_laws)

-- The events of a cancellation.
abbrev events_of : (user id refund : ℕ) (asks : Bool) → Option ℕ → List Event
events_of user id refund asks rider =
    Event.status_update id DeliveryStatus.cancelled
      ∷ Event.system_chat id
      ∷ (if asks then Event.refund_requested id user refund ∷ [] else [])
    ++ to_rider id rider
    ++ (Event.push_customer user ∷ [])

cancel_stored-sent :
    (user id now : ℕ) (d : Delivery) (s : Db)
    → let refund = refund_amount s.config d in
      (cancel_stored user id now d s).1.sent
      ≡ s.sent ++ events_of user id (pos_part refund) (ltb_ℤ (pos 0) refund) d.rider
unfolding cancel_stored
cancel_stored-sent user id now d s = elim (Bool-cases (ltb_ℤ (pos 0) (refund_amount s.config d))) [
  | inl e ↦ rw e (simp append_assoc refl)
  | inr e ↦ rw e (simp append_assoc refl)
]

-- The listener hears of a refund and of nothing else.
heard_refund :
    (user id refund reference later : ℕ) (rider : Option ℕ) (t : Db)
    → (hear_all reference later (events_of user id refund true rider) t).1
      ≡ (process_refund user id refund (suc (suc reference)) later t).1
heard_refund user id refund reference later none t = refl
heard_refund user id refund reference later (some r) t = refl

heard_nothing :
    (user id refund reference later : ℕ) (rider : Option ℕ) (t : Db)
    → (hear_all reference later (events_of user id refund false rider) t).1 ≡ t
heard_nothing user id refund reference later none t = refl
heard_nothing user id refund reference later (some r) t = refl

refunded_wallet :
    (user id amount reference now original : ℕ) (p : Payment) (w : Wallet) (s : Db)
    → lookup user s.wallets ≡ some w
    → find_payment_by_delivery id s.payments ≡ some (original, p)
    → lookup user (process_refund user id amount reference now s).1.wallets ≡ some (funded amount w)
unfolding process_refund credit_refund get_or_create_wallet
refunded_wallet user id amount reference now original p w s e f =
    ground (arith, lookup-update_self user (funded amount) s.wallets e)

cancel-sent :
    (user id now : ℕ) (d : Delivery) (s : Db)
    → CanCancel user id now d s
    → let refund = refund_amount s.config d in
      (cancel_delivery user id now s).1.sent
      ≡ s.sent ++ events_of user id (pos_part refund) (ltb_ℤ (pos 0) refund) d.rider
unfolding refund_amount cancellation_fee
cancel-sent user id now d s can =
    ap (λ y. y.1.sent) (cancel_open user id now d s can)
    ∙ cancel_stored-sent user id now (without_pins d) s

paid_amounts :
    (c : Option PayoutConfig) (d : Delivery)
    → is_paid d.payment_status ≡ true
    → (fee_charged c d ≡ cancellation_fee c d)
      × (refund_amount c d ≡ pos d.total_price -ℤ pos (cancellation_fee c d))
unfolding fee_charged refund_amount
paid_amounts c d paid = (rw paid refl, rw paid refl)

-- A cancellation by the customer of a delivery that was paid for answers with the fee, and once the
-- payment service has heard its events the customer's wallet has the price less the fee more in its
-- deposit, or the same deposit where the fee is not below the price. The customer has a wallet and the
-- delivery a payment.
pub cancelled_is_refunded :
    (user id now reference later original : ℕ) (p : Payment) (w : Wallet) (d : Delivery) (s : Db)
    → CanCancel user id now d s
    → is_paid d.payment_status ≡ true
    → lookup user s.wallets ≡ some w
    → find_payment_by_delivery id s.payments ≡ some (original, p)
    → let fee = cancellation_fee s.config d in
      let (r, t) = cancel_delivery user id now s in
      (answered : ℤ) × (es : List Event) × (after : Wallet) × (r ≡ ok (fee, answered))
      × (t.sent ≡ s.sent ++ es)
      × (lookup user (hear_all reference later es t).1.wallets ≡ some after)
      × (after.deposit_balance ≡ w.deposit_balance +ℤ pos (d.total_price - fee))
cancelled_is_refunded user id now reference later original p w d s can paid e f =
    let t = (cancel_delivery user id now s).1 in
    let fee = cancellation_fee s.config d in
    let z = refund_amount s.config d in
    let (charged, amount) = paid_amounts s.config d paid in
    let (answer, marked, wallets, payments) = cancel_settles user id now d s can in
    let sent = cancel-sent user id now d s can in
    let answered = answer ∙ ap (λ n. ok (n, z)) charged in
    let wallet = ap (lookup user) wallets ∙ e in
    let payment = ap (find_payment_by_delivery id) payments ∙ f in
    let look = λ (u : Db). lookup user u.wallets in
    elim (Bool-cases (ltb_ℤ (pos 0) z)) [
      | inl b ↦
          let es = events_of user id (pos_part z) true d.rider in
          let credited =
            refunded_wallet user id (pos_part z) (suc (suc reference)) later original p w t wallet
              payment in
          let less =
            ap pos_part amount ∙ sub_pos d.total_price fee (sym (ap (ltb_ℤ (pos 0)) amount) ∙ b) in
          (
            z,
            es,
            funded (pos_part z) w,
            answered,
            sent ∙ ap (λ x. s.sent ++ events_of user id (pos_part z) x d.rider) b,
            ap look (heard_refund user id (pos_part z) reference later d.rider t) ∙ credited,
            ap (λ n. w.deposit_balance +ℤ pos n) less,
          )
      | inr b ↦
          let es = events_of user id (pos_part z) false d.rider in
          (
            z,
            es,
            w,
            answered,
            sent ∙ ap (λ x. s.sent ++ events_of user id (pos_part z) x d.rider) b,
            ap look (heard_nothing user id (pos_part z) reference later d.rider t) ∙ wallet,
            add_none w.deposit_balance (d.total_price - fee)
                (sub_none d.total_price fee (sym (ap (ltb_ℤ (pos 0)) amount) ∙ b)),
          )
    ]

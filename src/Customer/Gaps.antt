-- ===== src/Customer/Gaps.antt =====
-- What the handlers of a customer's delivery do not check, and where two of them disagree.
use fastmotion_delivery.Base.{ℕ, ◌≡◌, true, false, none, some, arith, is_some}
use fastmotion_delivery.Base.Int.{pos, ltb_ℤ}
use fastmotion_delivery.Base.Dict.{lookup, update, lookup-update_self, lookup-append_new}
use fastmotion_delivery.Model.{
  Db, Delivery, DeliveryStatus, DeliveryType, PaymentStatus, HttpError, ok, err, is_paid, is_quick,
}
use fastmotion_delivery.Earnings.{round_rate}
use fastmotion_delivery.Payment.{marked_paid}
use fastmotion_delivery.Pricing.{PricingConfig}
use fastmotion_delivery.Customer.Queries.{World, Catalogue, Coupon, find_coupon_by_code}
use fastmotion_delivery.Customer.Quoting.{Order, Quote, pricing_input, resolved_coupon}
use fastmotion_delivery.Customer.Create.{place_order, store_order, delivery_of, initial_status}
use fastmotion_delivery.Customer.Cancel.{own_delivery, cancellation_fee, fee_charged, config_field}
use fastmotion_delivery.Customer.Pickup.{
  initiate_pickup_payment, confirm_pickup_payment, payment_asked,
}
use fastmotion_delivery.Customer.Reschedule.{
  reschedule_delivery, confirm_reschedule_payment, price_difference,
}
use fastmotion_delivery.Customer.CouponCheck.{validate_coupon, is_used_up}

-- A customer at whose door the rider is makes a quick delivery paid for by asking for the payment and
-- confirming it: no payment is recorded, and no wallet is touched.
pub confirmed_unpaid :
    (user id now pickup pin : ℕ) (d : Delivery) (s : Db)
    → lookup id s.deliveries ≡ some d
    → d.customer ≡ user
    → is_quick d.delivery_type ≡ true
    → d.status ≡ DeliveryStatus.rider_arrived_pickup
    → is_paid d.payment_status ≡ false
    → let r = confirm_pickup_payment user id pickup pin (initiate_pickup_payment user id now s).1 in
      (r.0 ≡ ok pickup)
      × (lookup id r.1.deliveries
          ≡ some (marked_paid DeliveryStatus.payment_confirmed pickup pin (payment_asked now d)))
      × (r.1.payments ≡ s.payments)
      × (r.1.wallets ≡ s.wallets)
unfolding initiate_pickup_payment confirm_pickup_payment own_delivery
confirmed_unpaid user id now pickup pin d s e own quick at unpaid = ground (
  arith,
  lookup-update_self id (payment_asked now) s.deliveries e,
  lookup-update_self id (marked_paid DeliveryStatus.payment_confirmed pickup pin)
      (update id (payment_asked now) s.deliveries) {v = payment_asked now d},
)

-- A scheduled order with any text as its payment reference is stored as paid, and no payment with
-- that reference is looked for.
pub reference_unverified :
    (user id : ℕ) (o : Order) (q : Quote) (s : Db)
    → lookup id s.deliveries ≡ none
    → o.delivery_type ≡ DeliveryType.scheduled
    → is_some o.scheduled_pickup_time ≡ true
    → is_some o.payment_reference ≡ true
    → let r = place_order user id o q s in
      (r.0 ≡ ok q.breakdown.total_price)
      × (lookup id r.1.deliveries ≡ some (delivery_of user o q))
      × ((delivery_of user o q).payment_status ≡ PaymentStatus.paid)
      × ((delivery_of user o q).status ≡ DeliveryStatus.scheduled)
      × (r.1.payments ≡ s.payments)
unfolding place_order store_order initial_status
reference_unverified user id o q s e sched time ref =
    ground (arith, lookup-append_new id s.deliveries (delivery_of user o q) e)

-- A move to a dearer time is never made: the request asks for the difference, and the confirmation of
-- its payment answers with the old time; neither writes anything.
pub dearer_not_moved :
    (user id time m : ℕ) (d : Delivery) (s : Db)
    → lookup id s.deliveries ≡ some d
    → d.customer ≡ user
    → d.can_reschedule ≡ true
    → ltb_ℤ (pos 0) (price_difference (some m) d) ≡ true
    → (reschedule_delivery user id time (some m) s ≡ (ok (some (price_difference (some m) d)), s))
      × (confirm_reschedule_payment user id s ≡ (ok d.scheduled_pickup_time, s))
unfolding reschedule_delivery confirm_reschedule_payment own_delivery
dearer_not_moved user id time m d s e own can dear = ground arith

-- A scheduled delivery that no rider has taken yet is charged for its cancellation like one that was
-- picked up: by the percentage of its price.
pub scheduled_charged :
    (d : Delivery) (s : Db)
    → d.status ≡ DeliveryStatus.scheduled
    → is_paid d.payment_status ≡ true
    → fee_charged s.config d
      ≡ round_rate d.total_price
          (config_field (λ c. c.cancellation_fee_after_pickup_percentage) s.config)
unfolding fee_charged cancellation_fee
scheduled_charged d s sched paid = ground arith

-- A coupon that is used up is refused by the check that the customer sees, and taken off the price of
-- an order all the same.
pub refused_coupon_counts :
    (w : World) (cat : Catalogue) (user code now : ℕ) (config : PricingConfig) (o : Order)
    (c : Coupon) (s : Db)
    → find_coupon_by_code code now cat.coupons ≡ some c
    → is_used_up c ≡ true
    → o.coupon_code ≡ some code
    → (validate_coupon cat user code now s ≡ (err HttpError.bad_request, s))
      × ((pricing_input w cat now config o).coupon ≡ some (resolved_coupon c))
unfolding validate_coupon pricing_input
refused_coupon_counts w cat user code now config o c s e up f = ground arith

-- ===== src/Tests/CustomerRuns.antt =====
-- The theorems on the customer's service at concrete states.
use fastmotion_delivery.Base.{◌-◌, ◌≡◌, refl, true, none, some, List, [], ◌∷◌, ◌++◌}
use fastmotion_delivery.Base.Int.{ℤ, pos, ◌+ℤ◌}
use fastmotion_delivery.Base.Dict.{lookup}
use fastmotion_delivery.Model.{
  Wallet, Db, Delivery, DeliveryStatus, PaymentStatus, Event, Purpose, ok, is_ok,
}
use fastmotion_delivery.Payment.{hear_all, find_payment_by_delivery}
use fastmotion_delivery.Rider.{verify_pickup_pin}
use fastmotion_delivery.Matching.{
  handle_quick_delivery_created, riders_to_ask, offered_payout, initial_state, candidates,
  insert_by, sort_by, filter_by_cooldown, is_in_cooldown, find_nearby_riders,
}
use fastmotion_delivery.Customer.{
  cancellation_fee, CustomerRequest, cancel_delivery, get_pickup_pin, retry_rider_matching,
  own_delivery_with_pins,
}
use fastmotion_delivery.Customer.Refunds.{CanCancel, cancelled_is_refunded}
use fastmotion_delivery.Customer.WithRiders.{shown_pin_opens, retry_asks}
use fastmotion_delivery.Tests.Data.{
  delivery_doc, with_delivery, taken_delivery, with_payment, payment_doc, wallet_doc,
}
use DeliveryStatus.{searching_rider, rider_accepted, rider_arrived_pickup, payment_confirmed}

abbrev accepted_doc : Delivery
accepted_doc = taken_delivery rider_accepted PaymentStatus.paid

-- A paid delivery that the rider 7 has accepted, with its payment and the wallet of its customer.
abbrev accepted_db : Db
accepted_db =
    record (with_payment (payment_doc (some 5) PaymentStatus.paid Purpose.delivery_payment)
      accepted_doc) {
        config = some (record {
          rider_commission_percentage = none;
          minimum_rider_payout = none;
          cancellation_fee_before_accept = none;
          cancellation_fee_after_accept = some 200;
          cancellation_fee_after_pickup_percentage = some 5000;
        });
      }

-- The customer cancels the delivery, twice, and then tries to pay for it at the pickup.
abbrev asks : List CustomerRequest
asks =
    CustomerRequest.cancel 30 5 10
    ∷ CustomerRequest.cancel 30 5 11
    ∷ CustomerRequest.pay_at_pickup 30 5 12
    ∷ []

accepted-CanCancel : CanCancel 30 5 10 accepted_doc accepted_db
unfolding lookup
accepted-CanCancel = (refl, refl, refl)

cancelled_is_refunded_example :
    let fee = cancellation_fee accepted_db.config accepted_doc in
    let (r, t) = cancel_delivery 30 5 10 accepted_db in
    (answered : ℤ) × (es : List Event) × (after : Wallet) × (r ≡ ok (fee, answered))
    × (t.sent ≡ accepted_db.sent ++ es)
    × (lookup 30 (hear_all 12 20 es t).1.wallets ≡ some after)
    × (after.deposit_balance
        ≡ (wallet_doc 3000).deposit_balance +ℤ pos (accepted_doc.total_price - fee))
unfolding lookup find_payment_by_delivery
cancelled_is_refunded_example =
    cancelled_is_refunded 30 5 10 12 20 11
      (payment_doc (some 5) PaymentStatus.paid Purpose.delivery_payment) (wallet_doc 3000)
      accepted_doc accepted_db accepted-CanCancel refl refl refl

abbrev confirmed_doc : Delivery
confirmed_doc = taken_delivery payment_confirmed PaymentStatus.paid

abbrev confirmed_db : Db
confirmed_db = with_delivery confirmed_doc

shown_pin_opens_example : is_ok (verify_pickup_pin 7 5 1234 confirmed_db).0 ≡ true
unfolding lookup get_pickup_pin own_delivery_with_pins
shown_pin_opens_example = shown_pin_opens 30 7 5 1234 confirmed_doc confirmed_db refl refl refl refl

abbrev paid_search : Delivery
paid_search = delivery_doc searching_rider none PaymentStatus.paid

abbrev search_db : Db
search_db = with_delivery paid_search

retry_asks_example :
    let (o, t) = retry_rider_matching 30 5 search_db in
    let u = (handle_quick_delivery_created (λ k. some 100) 5 20 t).1 in
    (o ≡ ok tt)
    × (t.sent ≡ search_db.sent ++ (Event.created_quick 5 ∷ []))
    × (u.sent
        ≡ t.sent
          ++ (Event.new_request 7 5 (offered_payout paid_search t) ∷ [])
          ++ (Event.request_sent 5 1 2 ∷ []))
    × (lookup 5 u.matching ≡ some (initial_state 30 (7 ∷ 8 ∷ []) 20))
unfolding lookup riders_to_ask candidates insert_by sort_by filter_by_cooldown find_nearby_riders
    is_in_cooldown
retry_asks_example =
    retry_asks (λ k. some 100) 30 5 20 7 (8 ∷ []) paid_search search_db refl refl refl refl refl

abbrev arrived_doc : Delivery
arrived_doc = taken_delivery rider_arrived_pickup PaymentStatus.pending

abbrev arrived_db : Db
arrived_db = with_delivery arrived_doc

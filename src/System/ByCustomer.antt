-- ===== src/System/ByCustomer.antt =====
-- apps/user-api/src/delivery/delivery.service.ts: what the requests of customers do to the riders of
-- the deliveries.
use fastmotion_delivery.Base.{
  ℕ, ◌≡◌, ◌⊎◌, inl, inr, ap, ◌∙◌, ◌||◌, Option, none, some, arith, Option-cases, Bool-cases,
  is_some,
}
use fastmotion_delivery.Base.Dict.{lookup, update, Always-append}
use fastmotion_delivery.Model.{Db, Delivery, DeliveryStatus, is_quick, without_pins}
use fastmotion_delivery.Payment.{marked_paid}
use fastmotion_delivery.Rider.Workflow.Manned.{RiderRides, IsManned}
use fastmotion_delivery.Customer.{
  CustomerRequest, ask, own_delivery, initiate_pickup_payment, confirm_pickup_payment,
  payment_asked, cancel_delivery, cancelled_by_customer, Order, Quote, place_order, store_order,
  delivery_of, initial_status, waits_for_payment, create_delivery_request, calculate_pricing,
  quote_of, pricing_input, moved_to_time, with_history, World, Catalogue, reschedule_delivery,
}
use fastmotion_delivery.Customer.Owed.{cancel_cases, cancel_stored-deliveries}
use fastmotion_delivery.Customer.Refunds.{cancel_open}
use fastmotion_delivery.Customer.Runs.{asks_only}
use fastmotion_delivery.Customer.Steps.{reschedule-cases, retry-sent}
use fastmotion_delivery.Admin.Checks.{update-IsManned}
use fastmotion_delivery.System.Writes.{same-IsManned, changed-IsManned}

module _ (user j : ℕ) (s : Db) where
  -- Which delivery a payment at pickup changes, and at which stage.
  initiate-stage :
      (now : ℕ)
      → let t = (initiate_pickup_payment user j now s).1 in
        (t.deliveries ≡ s.deliveries)
        ⊎ ((d : Delivery) × (lookup j s.deliveries ≡ some d)
            × (d.status ≡ DeliveryStatus.rider_arrived_pickup)
            × (t.deliveries ≡ update j (payment_asked now) s.deliveries))
  unfolding initiate_pickup_payment own_delivery
  initiate-stage now = elim (Option-cases (lookup j s.deliveries)) [
    | inl e ↦ ground arith
    | inr (d, e) ↦ ground arith
  ]

  confirm-stage :
      (pickup pin : ℕ)
      → let t = (confirm_pickup_payment user j pickup pin s).1 in
        (t.deliveries ≡ s.deliveries)
        ⊎ ((d : Delivery) × (lookup j s.deliveries ≡ some d)
            × (d.status ≡ DeliveryStatus.awaiting_payment)
            × (t.deliveries
                ≡ update j (marked_paid DeliveryStatus.payment_confirmed pickup pin) s.deliveries))
  unfolding confirm_pickup_payment own_delivery
  confirm-stage pickup pin = elim (Option-cases (lookup j s.deliveries)) [
    | inl e ↦ ground arith
    | inr (d, e) ↦ ground arith
  ]

order-RiderRides :
    (user : ℕ) (o : Order) (q : Quote) → RiderRides (delivery_of user o q).status none
unfolding initial_status
order-RiderRides user o q = ground arith

module _ (user j : ℕ) (s : Db) (h : IsManned s) where
  initiate-IsManned : (now : ℕ) → IsManned (initiate_pickup_payment user j now s).1
  initiate-IsManned now =
      let t = (initiate_pickup_payment user j now s).1 in
      elim (initiate-stage user j s now) [
        | inl e ↦ same-IsManned s t h e
        | inr (d, e, stage, u) ↦
            changed-IsManned j (payment_asked now) s t h (λ d' e' fits. ground arith) u
      ]

  confirm-IsManned : (pickup pin : ℕ) → IsManned (confirm_pickup_payment user j pickup pin s).1
  confirm-IsManned pickup pin =
      let t = (confirm_pickup_payment user j pickup pin s).1 in
      elim (confirm-stage user j s pickup pin) [
        | inl e ↦ same-IsManned s t h e
        | inr (d, e, stage, u) ↦
            changed-IsManned j (marked_paid DeliveryStatus.payment_confirmed pickup pin) s t h
              (λ d' e' fits. ground arith) u
      ]

  cancel-IsManned : (now : ℕ) → IsManned (cancel_delivery user j now s).1
  cancel-IsManned now =
      let t = (cancel_delivery user j now s).1 in
      elim (cancel_cases 0 0 0 user j now s) [
        | inl (e, f) ↦ same-IsManned s t h e
        | inr (d, can) ↦
            changed-IsManned j (cancelled_by_customer now) s t h (λ d' e' fits. tt)
              (ap (λ r. r.1.deliveries) (cancel_open user j now d s can)
                ∙ cancel_stored-deliveries user j now (without_pins d) s)
      ]

  moved-IsManned :
      (time : ℕ) (multiplier : Option ℕ) → IsManned (reschedule_delivery user j time multiplier s).1
  moved-IsManned time multiplier =
      let t = (reschedule_delivery user j time multiplier s).1 in
      let (a, c) = reschedule-cases 0 user j s time multiplier in
      elim c [
        | inl e ↦ same-IsManned s t h e
        | inr (d, e, u) ↦
            let m = record s { deliveries = update j with_history s.deliveries } in
            changed-IsManned j (moved_to_time time) m t
              (update-IsManned j with_history s h (λ d' e' fits. fits)) (λ d' e' fits. fits) u
      ]

  place-IsManned : (o : Order) (q : Quote) → IsManned (place_order user j o q s).1
  unfolding place_order store_order
  place-IsManned o q =
      elim (Bool-cases (is_quick o.delivery_type || is_some o.scheduled_pickup_time)) [
        | inl f ↦ elim (Bool-cases (waits_for_payment o)) [
          | inl g ↦ rw f (rw g h)
          | inr g ↦ rw f (
              rw g (
                Always-append (λ _ d. RiderRides d.status d.rider) j (delivery_of user o q)
                  s.deliveries h (order-RiderRides user o q)))
        ]
        | inr f ↦ rw f h
      ]

  create-IsManned :
      (w : World) (cat : Catalogue) (now : ℕ) (o : Order)
      → IsManned (create_delivery_request w cat user j now o s).1
  unfolding create_delivery_request calculate_pricing
  create-IsManned w cat now o = elim (Option-cases cat.config) [
    | inl e ↦ rw e h
    | inr (c, e) ↦ simp e (place-IsManned o (quote_of w (pricing_input w cat now c o) o))
  ]

pub ask-IsManned : (r : CustomerRequest) (s : Db) → IsManned s → IsManned (ask r s).1
unfolding ask
ask-IsManned (CustomerRequest.create w cat user j now o) s h =
    create-IsManned user j s h w cat now o
ask-IsManned (CustomerRequest.cancel user j now) s h = cancel-IsManned user j s h now
ask-IsManned (CustomerRequest.pay_at_pickup user j now) s h = initiate-IsManned user j s h now
ask-IsManned (CustomerRequest.confirm_payment user j pickup pin) s h =
    confirm-IsManned user j s h pickup pin
ask-IsManned (CustomerRequest.retry user j) s h =
    same-IsManned s (ask (CustomerRequest.retry user j) s).1 h (retry-sent 0 user j s).1
ask-IsManned (CustomerRequest.reschedule user j time multiplier) s h =
    moved-IsManned user j s h time multiplier
ask-IsManned (CustomerRequest.confirm_reschedule user j) s h = simp (asks_only user j s) h

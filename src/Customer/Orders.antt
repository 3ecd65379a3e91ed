-- ===== src/Customer/Orders.antt =====
-- From an order to the delivery that comes of it, and what a move to another time changes.
use fastmotion_delivery.Base.{
  ℕ, refl, ◌≡◌, ◌↔◌, ◌⊎◌, inl, inr, true, false, ◌&&◌, ◌||◌, Option, none, some, [], ◌∷◌, ◌++◌,
  arith, Option-cases, Bool-cases, is_some, ◌==◌,
}
use fastmotion_delivery.Base.Dict.{
  lookup, update, erase, lookup-update_self, lookup-append_new, lookup-erase_self,
}
use fastmotion_delivery.Model.{
  Db, Delivery, DeliveryStatus, PaymentStatus, Payment, ok, is_ok, is_paid, is_quick,
}
use fastmotion_delivery.Payment.{
  payment_success, apply_payment, settle_delivery, confirm_delivery, from_pending, marked_paid,
}
use fastmotion_delivery.Customer.Quoting.{Order, Quote}
use fastmotion_delivery.Customer.Create.{
  place_order, store_order, delivery_of, pending_of, initial_status, waits_for_payment,
  is_pay_at_pickup,
}
use fastmotion_delivery.Customer.Cancel.{own_delivery}
use fastmotion_delivery.Customer.Reschedule.{
  reschedule_delivery, preview_reschedule, preview_of, move_delivery, with_history, moved_to_time,
}

pending_order :
    (user id reference pickup pin amount now : ℕ) (o : Order) (q : Quote) (p : Payment) (s : Db)
    → lookup id s.deliveries ≡ none
    → waits_for_payment o ≡ true
    → lookup reference s.payments ≡ some p
    → is_paid p.status ≡ false
    → p.delivery_request ≡ some id
    → let t = (place_order user id o q s).1 in
      let u = (payment_success reference pickup pin amount now t).1 in
      (t.deliveries ≡ s.deliveries)
      × (lookup id u.deliveries
          ≡ some (
              marked_paid DeliveryStatus.payment_confirmed pickup pin
                (from_pending (pending_of user o q))))
      × (lookup id u.pending_deliveries ≡ none)
unfolding place_order payment_success apply_payment settle_delivery confirm_delivery
pending_order user id reference pickup pin amount now o q p s e w f unpaid g = ground (
  arith,
  lookup-append_new id (erase id s.pending_deliveries) (pending_of user o q),
  lookup-erase_self id s.pending_deliveries,
  lookup-erase_self id (erase id s.pending_deliveries ++ ((id, pending_of user o q) ∷ [])),
  lookup-append_new id s.deliveries (from_pending (pending_of user o q)) e,
  lookup-update_self id (marked_paid DeliveryStatus.payment_confirmed pickup pin)
      (s.deliveries ++ ((id, from_pending (pending_of user o q)) ∷ []))
      {v = from_pending (pending_of user o q)},
)

-- An order that waits for its payment by card or bank is stored nowhere but in Redis. Once the payment
-- provider reports its payment, which was not paid before, it is a delivery of the customer who ordered
-- it, at the price, the service fee and of the type that were quoted, confirmed and paid for, with both
-- PINs and without a rider, and it waits in Redis no more.
pub order_becomes_delivery :
    (user id reference pickup pin amount now : ℕ) (o : Order) (q : Quote) (p : Payment) (s : Db)
    → lookup id s.deliveries ≡ none
    → waits_for_payment o ≡ true
    → lookup reference s.payments ≡ some p
    → is_paid p.status ≡ false
    → p.delivery_request ≡ some id
    → let t = (place_order user id o q s).1 in
      let u = (payment_success reference pickup pin amount now t).1 in
      (t.deliveries ≡ s.deliveries)
      × ((d : Delivery) × (lookup id u.deliveries ≡ some d)
          × (d.customer ≡ user)
          × (d.rider ≡ none)
          × (d.total_price ≡ q.breakdown.total_price)
          × (d.service_fee ≡ q.breakdown.service_fee)
          × (d.delivery_type ≡ o.delivery_type)
          × (d.status ≡ DeliveryStatus.payment_confirmed)
          × (d.payment_status ≡ PaymentStatus.paid)
          × (d.pickup_pin ≡ some pickup)
          × (d.delivery_pin ≡ some pin))
      × (lookup id u.pending_deliveries ≡ none)
order_becomes_delivery user id reference pickup pin amount now o q p s e w f unpaid g =
    let (same, found, gone) =
      pending_order user id reference pickup pin amount now o q p s e w f unpaid g in
    let d =
      marked_paid DeliveryStatus.payment_confirmed pickup pin
        (from_pending (pending_of user o q)) in
    (same, (d, found, refl, refl, refl, refl, refl, refl, refl, refl, refl), gone)

-- An order that does not wait for a payment in Redis is stored, with the quoted price; riders are
-- looked for exactly when it is a quick one that is paid at pickup or comes with a payment reference,
-- and it counts as paid exactly when it is a scheduled one that comes with a payment reference.
pub stored_order :
    (user id : ℕ) (o : Order) (q : Quote) (s : Db)
    → lookup id s.deliveries ≡ none
    → waits_for_payment o ≡ false
    → (is_quick o.delivery_type || is_some o.scheduled_pickup_time) ≡ true
    → let d = delivery_of user o q in
      (lookup id (place_order user id o q s).1.deliveries ≡ some d)
      × (d.total_price ≡ q.breakdown.total_price)
      × ((d.status ≡ DeliveryStatus.searching_rider) ↔ (
          (is_quick o.delivery_type ≡ true)
          × ((is_pay_at_pickup o.payment_method || is_some o.payment_reference) ≡ true)))
      × ((is_paid d.payment_status ≡ true)
          ↔ ((is_quick o.delivery_type ≡ false) × (is_some o.payment_reference ≡ true)))
unfolding place_order store_order initial_status
stored_order user id o q s e w t =
    ground (arith, lookup-append_new id s.deliveries (delivery_of user o q) e)

-- A reschedule and its preview agree: both are refused, or the delivery is moved to the new time
-- exactly when the preview asks for nothing more, and keeps its price.
pub preview_agrees :
    (user id time : ℕ) (multiplier : Option ℕ) (s : Db)
    → let r = reschedule_delivery user id time multiplier s in
      let v = preview_reschedule user id multiplier s in
      ((is_ok r.0 ≡ false) × (is_ok v.0 ≡ false) × (r.1 ≡ s))
      ⊎ ((d : Delivery) × (lookup id s.deliveries ≡ some d)
          × (v.0 ≡ ok (preview_of multiplier d))
          × ((((preview_of multiplier d).additional_payment_required ≡ true)
                × (r.0 ≡ ok (some (preview_of multiplier d).price_difference))
                × (r.1 ≡ s))
              ⊎ (((preview_of multiplier d).additional_payment_required ≡ false)
                  × (r.0 ≡ ok none)
                  × (lookup id r.1.deliveries ≡ some (moved_to_time time (with_history d))))))
unfolding reschedule_delivery preview_reschedule own_delivery move_delivery
preview_agrees user id time multiplier s = elim (Option-cases (lookup id s.deliveries)) [
  | inl e ↦ inl (ground arith)
  | inr (d, e) ↦ elim (Bool-cases ((d.customer == user) && d.can_reschedule)) [
    | inl f ↦ inr (
      d,
      e,
      ground arith,
      ground (
        arith,
        lookup-update_self id with_history s.deliveries e,
        lookup-update_self id (moved_to_time time) (update id with_history s.deliveries)
            {v = with_history d},
      ),
    )
    | inr f ↦ inl (ground arith)
  ]
]

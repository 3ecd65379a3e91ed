-- ===== src/Customer/Steps.antt =====
-- What one request of a customer writes, but for a cancellation.
use fastmotion_delivery.Base.{
  ℕ, ◌≡◌, ◌⊎◌, inl, inr, refl, false, Option, none, some, [], ◌∷◌, ◌++◌, arith, Option-cases,
  Bool-cases, ◌||◌, is_some,
}
use fastmotion_delivery.Base.Dict.{lookup, update}
use fastmotion_delivery.Model.{Db, Delivery, DeliveryStatus, is_status, is_quick}
use fastmotion_delivery.Payment.{marked_paid}
use fastmotion_delivery.Customer.Queries.{World, Catalogue}
use fastmotion_delivery.Customer.Quoting.{Order, Quote, calculate_pricing, quote_of, pricing_input}
use fastmotion_delivery.Customer.Create.{
  create_delivery_request, store_order, place_order, created_events, delivery_of, waits_for_payment,
}
use fastmotion_delivery.Customer.Cancel.{own_delivery}
use fastmotion_delivery.Customer.Pickup.{
  initiate_pickup_payment, confirm_pickup_payment, retry_rider_matching, payment_asked,
}
use fastmotion_delivery.Customer.Reschedule.{
  reschedule_delivery, move_delivery, moved_to_time, with_history, of_new_time,
}
use fastmotion_delivery.Customer.Owed.{asked_back, asked_back-send, asked_back-append}

-- One request leaves the deliveries, or changes one of them that is not cancelled and keeps its price;
-- nothing is asked back.
unfoldable pub IsHarmless : (id j : ℕ) (f : Delivery → Delivery) (s t : Db) → Type 0
IsHarmless id j f s t =
    (asked_back id t.sent ≡ asked_back id s.sent)
    × ((t.deliveries ≡ s.deliveries)
        ⊎ ((d : Delivery) × (lookup j s.deliveries ≡ some d)
            × (is_status d.status DeliveryStatus.cancelled ≡ false)
            × (t.deliveries ≡ update j f s.deliveries)))

of_new_time-asked_back : (id j : ℕ) (rider : Option ℕ) → asked_back id (of_new_time j rider) ≡ 0
unfolding asked_back
of_new_time-asked_back id j none = refl
of_new_time-asked_back id j (some r) = omega arith

created-asked_back : (id j : ℕ) (o : Order) → asked_back id (created_events j o) ≡ 0
unfolding asked_back
created-asked_back id j o = ground arith

move-sent :
    (id j time : ℕ) (d : Delivery) (s : Db)
    → asked_back id (move_delivery j time d s).1.sent ≡ asked_back id s.sent
unfolding move_delivery
move-sent id j time d s = simp (asked_back-append, of_new_time-asked_back) (omega arith)

move-deliveries :
    (j time : ℕ) (d : Delivery) (s : Db)
    → (move_delivery j time d s).1.deliveries
      ≡ update j (moved_to_time time) (update j with_history s.deliveries)
unfolding move_delivery
move-deliveries j time d s = refl

store-deliveries :
    (user j : ℕ) (o : Order) (q : Quote) (s : Db)
    → (store_order user j o q s).1.deliveries ≡ s.deliveries ++ ((j, delivery_of user o q) ∷ [])
unfolding store_order
store-deliveries user j o q s = refl

store-sent :
    (id user j : ℕ) (o : Order) (q : Quote) (s : Db)
    → asked_back id (store_order user j o q s).1.sent ≡ asked_back id s.sent
unfolding store_order
store-sent id user j o q s =
    simp (asked_back-send, asked_back-append, created-asked_back) (omega arith)

module _ (id user j : ℕ) (s : Db) where
  pub initiate-IsHarmless :
      (now : ℕ) → IsHarmless id j (payment_asked now) s (initiate_pickup_payment user j now s).1
  unfolding IsHarmless initiate_pickup_payment own_delivery
  initiate-IsHarmless now = elim (Option-cases (lookup j s.deliveries)) [
    | inl e ↦ ground arith
    | inr (d, e) ↦ grind (arith, asked_back-send)
  ]

  pub confirm-IsHarmless :
      (pickup pin : ℕ)
      → IsHarmless id j
          (marked_paid DeliveryStatus.payment_confirmed pickup pin)
          s
          (confirm_pickup_payment user j pickup pin s).1
  unfolding IsHarmless confirm_pickup_payment own_delivery
  confirm-IsHarmless pickup pin = elim (Option-cases (lookup j s.deliveries)) [
    | inl e ↦ ground arith
    | inr (d, e) ↦ grind (arith, asked_back-send)
  ]

  pub reschedule-cases :
      (time : ℕ) (multiplier : Option ℕ)
      → let t = (reschedule_delivery user j time multiplier s).1 in
        (asked_back id t.sent ≡ asked_back id s.sent)
        × ((t.deliveries ≡ s.deliveries)
            ⊎ ((d : Delivery) × (lookup j s.deliveries ≡ some d)
                × (t.deliveries
                    ≡ update j (moved_to_time time) (update j with_history s.deliveries))))
  unfolding reschedule_delivery own_delivery
  reschedule-cases time multiplier = elim (Option-cases (lookup j s.deliveries)) [
    | inl e ↦ ground arith
    | inr (d, e) ↦ grind (arith, move-sent, move-deliveries)
  ]

  pub retry-sent :
      let t = (retry_rider_matching user j s).1 in
      (asked_back id t.sent ≡ asked_back id s.sent) × (t.deliveries ≡ s.deliveries)
  unfolding retry_rider_matching own_delivery
  retry-sent = grind (arith, asked_back-send)

  -- Nothing is asked back, and at most a delivery is added.
  abbrev pub Adds : Db → Type 0
  Adds t =
      (asked_back id t.sent ≡ asked_back id s.sent)
      × ((t.deliveries ≡ s.deliveries)
          ⊎ ((d : Delivery) × (t.deliveries ≡ s.deliveries ++ ((j, d) ∷ []))))

  place-Adds : (o : Order) (q : Quote) → Adds (place_order user j o q s).1
  unfolding place_order store_order
  place-Adds o q = elim (Bool-cases (is_quick o.delivery_type || is_some o.scheduled_pickup_time)) [
    | inl f ↦ elim (Bool-cases (waits_for_payment o)) [
      | inl g ↦ rw f (rw g (refl, inl refl))
      | inr g ↦ rw f (
          rw g
            (store-sent id user j o q s, inr (delivery_of user o q, store-deliveries user j o q s)))
    ]
    | inr f ↦ rw f (refl, inl refl)
  ]

  pub create-Adds :
      (w : World) (cat : Catalogue) (now : ℕ) (o : Order)
      → Adds (create_delivery_request w cat user j now o s).1
  unfolding create_delivery_request calculate_pricing
  create-Adds w cat now o = elim (Option-cases cat.config) [
    | inl e ↦ rw e (refl, inl refl)
    | inr (c, e) ↦ simp e (place-Adds o (quote_of w (pricing_input w cat now c o) o))
  ]

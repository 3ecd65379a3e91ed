-- ===== src/Customer/WithRiders.antt =====
-- The customer's service and the rider's service at work on one delivery.
use fastmotion_delivery.Base.{
  ℕ, ◌+◌, ◌≡◌, refl, true, Option, some, List, [], ◌∷◌, arith, length, ◌++◌,
}
use fastmotion_delivery.Base.Dict.{
  lookup, lookup-update_self, erase, lookup-append_new, lookup-erase_self,
}
use fastmotion_delivery.Model.{
  Db, Delivery, DeliveryStatus, Event, Rider, HttpError, ok, err, is_ok, is_paid, includes,
}
use fastmotion_delivery.Rider.{
  accept_delivery, reject_delivery, accept_check, accept_commit, get_commission_config, accepted_by,
  unassigned, is_rider, verify_pickup_pin, pickup_pin_statuses,
}
use fastmotion_delivery.Customer.Cancel.{own_delivery, cancel_delivery, cancelled_by_customer}
use fastmotion_delivery.Customer.Pickup.{
  own_delivery_with_pins, get_pickup_pin, retry_rider_matching,
}
use fastmotion_delivery.Matching.{
  handle_quick_delivery_created, riders_to_ask, ask_first, initial_state, offered_payout,
}
use fastmotion_delivery.Customer.Reschedule.{can_reschedule, reschedule_delivery}
use fastmotion_delivery.Customer.Refunds.{CanCancel, cancel_settles, refund_of}
use fastmotion_delivery.Customer.Owed.{asked_back, asked_back-send, cancel-asked_back}

-- The pickup PIN that the customer of a delivery is shown is the one that its rider has to give: the
-- rider's check accepts it, at each stage where it asks for it.
pub shown_pin_opens :
    (user rider id pin : ℕ) (d : Delivery) (s : Db)
    → lookup id s.deliveries ≡ some d
    → (get_pickup_pin user id s).0 ≡ ok (some pin)
    → is_rider d.rider rider ≡ true
    → includes d.status pickup_pin_statuses ≡ true
    → is_ok (verify_pickup_pin rider id pin s).0 ≡ true
unfolding get_pickup_pin own_delivery_with_pins verify_pickup_pin
shown_pin_opens user rider id pin d s e shown own at = ground arith

-- A delivery that a rider has accepted is not moved to another time, although the customer who asks
-- whether it can be is told that it can.
pub accepted_not_moved :
    (user rider id now time : ℕ) (doc : Rider) (multiplier : Option ℕ) (d : Delivery) (s : Db)
    → lookup id s.deliveries ≡ some d
    → d.customer ≡ user
    → is_ok (accept_delivery rider doc id now s).0 ≡ true
    → let t = (accept_delivery rider doc id now s).1 in
      ((can_reschedule user id t).0 ≡ ok true)
      × (reschedule_delivery user id time multiplier t ≡ (err HttpError.bad_request, t))
unfolding accept_delivery accept_check accept_commit get_commission_config can_reschedule
    reschedule_delivery own_delivery
accepted_not_moved user rider id now time doc multiplier d s e own h =
    ground (arith, lookup-update_self id (accepted_by rider now) s.deliveries e)

reject-asked_back :
    (rider id : ℕ) (d : Delivery) (s : Db)
    → lookup id s.deliveries ≡ some d
    → is_rider d.rider rider ≡ true
    → let t = (reject_delivery rider id s).1 in
      (asked_back id t.sent ≡ asked_back id s.sent)
      × (t.config ≡ s.config)
      × (lookup id t.deliveries ≡ some (unassigned d))
unfolding reject_delivery
reject-asked_back rider id d s e own =
    grind (arith, asked_back-send, lookup-update_self id unassigned s.deliveries e)

-- A delivery that its customer has cancelled, and that its rider then rejects, is back in the search:
-- the customer cancels it again and is given back a second refund.
pub refunded_twice :
    (user rider id now later : ℕ) (d : Delivery) (s : Db)
    → CanCancel user id now d s
    → is_rider d.rider rider ≡ true
    → let t = (cancel_delivery user id now s).1 in
      let u = (reject_delivery rider id t).1 in
      let v = (cancel_delivery user id later u).1 in
      asked_back id v.sent
      ≡ asked_back id s.sent
        + refund_of s.config d
        + refund_of s.config (unassigned (cancelled_by_customer now d))
refunded_twice user rider id now later d s can own =
    let t = (cancel_delivery user id now s).1 in
    let u = (reject_delivery rider id t).1 in
    let d' = cancelled_by_customer now d in
    let (_, found, _, _) = cancel_settles user id now d s can in
    let (a, c) = cancel-asked_back user id now d s can in
    let (b, c', f) = reject-asked_back rider id d' t found own in
    let (a', _) = cancel-asked_back user id later (unassigned d') u (f, can.1, refl) in ground arith

search_begins :
    (distance : ℕ → Option ℕ) (id now r : ℕ) (rs : List ℕ) (d : Delivery) (s : Db)
    → lookup id s.deliveries ≡ some d
    → riders_to_ask distance now d s ≡ r ∷ rs
    → let u = (handle_quick_delivery_created distance id now s).1 in
      (u.sent
        ≡ s.sent
          ++ (Event.new_request r id (offered_payout d s) ∷ [])
          ++ (Event.request_sent id 1 (length (r ∷ rs)) ∷ []))
      × (lookup id u.matching ≡ some (initial_state d.customer (r ∷ rs) now))
unfolding handle_quick_delivery_created
search_begins distance id now r rs d s e asked =
    let asks : handle_quick_delivery_created distance id now s ≡ ask_first id now d (r ∷ rs) s =
      ground arith in
    simp asks (
      refl,
      lookup-append_new id (erase id s.matching) (initial_state d.customer (r ∷ rs) now)
          (lookup-erase_self id s.matching),
    )

-- A customer who restarts the search for a delivery that is paid for gets an answer from the search
-- as soon as some rider can be asked: the first of them is sent the request, and a new search begins
-- with that rider.
pub retry_asks :
    (distance : ℕ → Option ℕ) (user id now r : ℕ) (rs : List ℕ) (d : Delivery) (s : Db)
    → lookup id s.deliveries ≡ some d
    → d.customer ≡ user
    → is_paid d.payment_status ≡ true
    → d.status ≡ DeliveryStatus.searching_rider
    → riders_to_ask distance now d s ≡ r ∷ rs
    → let (o, t) = retry_rider_matching user id s in
      let u = (handle_quick_delivery_created distance id now t).1 in
      (o ≡ ok tt)
      × (t.sent ≡ s.sent ++ (Event.created_quick id ∷ []))
      × (u.sent
          ≡ t.sent
            ++ (Event.new_request r id (offered_payout d t) ∷ [])
            ++ (Event.request_sent id 1 (length (r ∷ rs)) ∷ []))
      × (lookup id u.matching ≡ some (initial_state user (r ∷ rs) now))
unfolding retry_rider_matching own_delivery riders_to_ask
retry_asks distance user id now r rs d s e own paid at asked =
    let t = record s { sent = s.sent ++ (Event.created_quick id ∷ []) } in
    let again : retry_rider_matching user id s ≡ (ok tt, t) = ground arith in
    let begins = search_begins distance id now r rs d t e asked in
    rw again (refl, refl, begins.0, rw own at begins.1)

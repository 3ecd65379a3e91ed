-- ===== src/Admin/Gaps.antt =====
-- What an admin's handlers leave undone or unchecked, with what the other services make of it.
use fastmotion_delivery.Base.{
  ℕ, ◌+◌, ◌≡◌, ◌∙◌, ◌↔◌, ◌<◌, refl, true, false, none, some, [], ◌∷◌, ◌++◌, arith, Bool,
}
use fastmotion_delivery.Base.Dict.{Dict, lookup, update, lookup-update_self, lookup-append_old}
use fastmotion_delivery.Model.{
  Db, Delivery, DeliveryStatus, Payment, PaymentStatus, HttpError, Untouched, Refused, ok, is_ok,
  is_paid, includes,
}
use fastmotion_delivery.Rider.{verify_delivery_pin}
use fastmotion_delivery.Customer.{cancel_delivery, refund_amount, fee_charged}
use fastmotion_delivery.Customer.Refunds.{CanCancel, cancel_settles}
use fastmotion_delivery.Admin.Override.{
  PinType, override_pin, overridden, manual_complete, release, completed_by_admin, manual_cancel,
  cancelled_by_admin, with_payment_status, adjust_price, priced, is_over, update_status_by_admin,
}
use fastmotion_delivery.Admin.Refund.{
  issue_refund, find_paid_payment, is_match, refunded_more, issued_refund, note_refund,
  is_refundable,
}

-- A delivery that an admin completes is never paid out: the earnings of the rider and of the platform
-- stay as they were, and the rider's delivery PIN is refused from then on.
pub completed_uncredited :
    (rider id pin now later new_id : ℕ) (d : Delivery) (s : Db)
    → lookup id s.deliveries ≡ some d
    → is_over d.status ≡ false
    → let t = (manual_complete id now s).1 in
      (lookup id t.deliveries ≡ some (completed_by_admin now d))
      × (t.earnings ≡ s.earnings)
      × (t.platform_earnings ≡ s.platform_earnings)
      × Untouched t (verify_delivery_pin rider id pin later new_id t)
unfolding manual_complete release verify_delivery_pin
completed_uncredited rider id pin now later new_id d s e over =
    ground (arith, lookup-update_self id (completed_by_admin now) s.deliveries e)

-- A delivery whose PIN an admin overrides at the drop-off is delivered, but the rider's document and
-- the earnings stay as they were, and the rider's delivery PIN is refused from then on.
pub overridden_uncredited :
    (rider id pin now later new_id : ℕ) (d : Delivery) (s : Db)
    → lookup id s.deliveries ≡ some d
    → includes d.status
        (DeliveryStatus.rider_arrived_dropoff ∷ DeliveryStatus.delivery_in_progress ∷ [])
      ≡ true
    → let t = (override_pin id PinType.delivery now s).1 in
      (lookup id t.deliveries ≡ some (overridden PinType.delivery now d))
      × ((overridden PinType.delivery now d).status ≡ DeliveryStatus.delivered)
      × (t.riders ≡ s.riders)
      × (t.earnings ≡ s.earnings)
      × Untouched t (verify_delivery_pin rider id pin later new_id t)
unfolding override_pin verify_delivery_pin
overridden_uncredited rider id pin now later new_id d s e at =
    ground (arith, lookup-update_self id (overridden PinType.delivery now) s.deliveries e)

-- An admin who cancels a paid delivery with a refund only marks it as refunded: no wallet, payment or
-- transaction changes, and another refund of a full amount is refused.
pub cancelled_unrefunded :
    (id amount reference now later : ℕ) (full : Bool) (d : Delivery) (s : Db)
    → lookup id s.deliveries ≡ some d
    → is_over d.status ≡ false
    → is_paid d.payment_status ≡ true
    → let t = (manual_cancel id true none now s).1 in
      (lookup id t.deliveries
        ≡ some (with_payment_status PaymentStatus.refunded (cancelled_by_admin now d)))
      × (t.wallets ≡ s.wallets)
      × (t.payments ≡ s.payments)
      × (t.transactions ≡ s.transactions)
      × Refused HttpError.bad_request t (issue_refund id amount full reference later t)
unfolding manual_cancel release issue_refund
cancelled_unrefunded id amount reference now later full d s e over paid = ground (
  arith,
  lookup-update_self id (cancelled_by_admin now) s.deliveries e,
  lookup-update_self id (with_payment_status PaymentStatus.refunded)
      (update id (cancelled_by_admin now) s.deliveries) {v = cancelled_by_admin now d},
)

-- The refund of a cancellation follows a price that an admin has raised after the payment, and not
-- what was paid.
pub raised_price_refunded :
    (user id price now : ℕ) (d : Delivery) (s : Db)
    → CanCancel user id now d s
    → includes d.status
        (DeliveryStatus.completed ∷ DeliveryStatus.cancelled ∷ DeliveryStatus.failed ∷ [])
      ≡ false
    → let t = (adjust_price id price s).1 in
      (cancel_delivery user id now t).0
      ≡ ok (fee_charged s.config (priced price d), refund_amount s.config (priced price d))
unfolding adjust_price
raised_price_refunded user id price now d s (e, own, allowed) not_over =
    let t = (adjust_price id price s).1 in
    let found : lookup id t.deliveries ≡ some (priced price d) =
      ground (arith, lookup-update_self id (priced price) s.deliveries e) in
    let same : t.config ≡ s.config = ground arith in
    rw same at (cancel_settles user id now (priced price d) t (found, own, allowed)).0

find_paid-append :
    (id : ℕ) (ps qs : Dict Payment) {r : ℕ} {p : Payment}
    → find_paid_payment id ps ≡ some (r, p)
    → find_paid_payment id (ps ++ qs) ≡ some (r, p)
unfolding find_paid_payment
find_paid-append id [] qs e = cc
find_paid-append id ((j, x) ∷ ps) qs {r} {p} e =
    ground (arith, find_paid-append id ps qs {r = r} {p = p})

matches :
    (id : ℕ) (ps : Dict Payment) {r : ℕ} {p : Payment}
    → find_paid_payment id ps ≡ some (r, p)
    → is_match id p ≡ true
unfolding find_paid_payment
matches id [] e = cc
matches id ((j, x) ∷ ps) {r} {p} e = ground (arith, matches id ps {r = r} {p = p})

-- The payment that was found is found again once more of it is refunded.
find_paid-refunded :
    (id r before amount now : ℕ) (p : Payment) (ps : Dict Payment)
    → find_paid_payment id ps ≡ some (r, p)
    → lookup r ps ≡ some p
    → find_paid_payment id (update r (refunded_more before amount now) ps)
      ≡ some (r, refunded_more before amount now p)
unfolding find_paid_payment lookup update
find_paid-refunded id r before amount now p [] e f = cc
find_paid-refunded id r before amount now p ((j, x) ∷ ps) e f =
    grind (arith, find_paid-refunded id r before amount now p ps, matches id ps)

-- A partial refund leaves the delivery and its payment ready for the next.
issue_step :
    (id a reference now r : ℕ) (d : Delivery) (p : Payment) (s : Db)
    → lookup id s.deliveries ≡ some d
    → is_refundable d.payment_status ≡ true
    → a < d.total_price
    → find_paid_payment id s.payments ≡ some (r, p)
    → lookup r s.payments ≡ some p
    → let u = issue_refund id a false reference now s in
      let p' = refunded_more p.refunded_amount a now p in
      (is_ok u.0 ≡ true)
      × (lookup id u.1.deliveries ≡ some (with_payment_status PaymentStatus.partially_refunded d))
      × (find_paid_payment id u.1.payments ≡ some (r, p'))
      × (lookup r u.1.payments ≡ some p')
      × (u.1.wallets ≡ s.wallets)
unfolding issue_refund note_refund
issue_step id a reference now r d p s e ok_status less f g =
    let q = issued_refund d.customer id a now (some (r, p)) in
    let f' = find_paid-append id s.payments ((reference, q) ∷ []) f in
    let g' = lookup-append_old r reference s.payments q {v = p} g in
    ground (
      arith,
      lookup-update_self id (with_payment_status PaymentStatus.partially_refunded) s.deliveries e,
      find_paid-refunded id r p.refunded_amount a now p (s.payments ++ ((reference, q) ∷ [])) f' g',
      lookup-update_self r (refunded_more p.refunded_amount a now)
          (s.payments ++ ((reference, q) ∷ [])) g',
    )

-- Partial refunds add up past the price: two that are each below it succeed, the payment records the
-- sum of both as refunded, and no wallet is credited.
pub refunds_add_up :
    (id a b ref_a ref_b now r : ℕ) (d : Delivery) (p : Payment) (s : Db)
    → lookup id s.deliveries ≡ some d
    → is_refundable d.payment_status ≡ true
    → a < d.total_price
    → b < d.total_price
    → find_paid_payment id s.payments ≡ some (r, p)
    → lookup r s.payments ≡ some p
    → let t = (issue_refund id a false ref_a now s).1 in
      let u = issue_refund id b false ref_b now t in
      (is_ok u.0 ≡ true)
      × (lookup r u.1.payments
          ≡ some (
              refunded_more
                (p.refunded_amount + a)
                b
                now
                (refunded_more p.refunded_amount a now p)))
      × (u.1.wallets ≡ s.wallets)
refunds_add_up id a b ref_a ref_b now r d p s e ok_status la lb f g =
    let t = (issue_refund id a false ref_a now s).1 in
    let (_, e', f', g', w) = issue_step id a ref_a now r d p s e ok_status la f g in
    let (o, _, _, g'', w') =
      issue_step id b ref_b now r (with_payment_status PaymentStatus.partially_refunded d)
        (refunded_more p.refunded_amount a now p) t e' refl lb f' g' in
    (o, g'', w' ∙ w)

-- An admin may set any status in any status: a completed delivery is searched for a rider again.
pub status_unguarded :
    (id now : ℕ) (new : DeliveryStatus) (s : Db)
    → (is_ok (update_status_by_admin id new now s).0 ≡ true)
      ↔ ((d : Delivery) × (lookup id s.deliveries ≡ some d))
unfolding update_status_by_admin
status_unguarded id now new s = ground arith

-- ===== src/Tests/AdminRuns.antt =====
-- The theorems on the admin's service at concrete states.
use fastmotion_delivery.Base.{ℕ, ◌≡◌, ◌⊎◌, refl, none, some}
use fastmotion_delivery.Base.Int.{pos, ◌+ℤ◌}
use fastmotion_delivery.Base.Dict.{lookup}
use fastmotion_delivery.Model.{Db, Delivery, DeliveryStatus, PaymentStatus, Purpose, Untouched}
use fastmotion_delivery.Rider.{verify_delivery_pin}
use fastmotion_delivery.Admin.{
  reassign_rider, find_assignable, unassign, manual_complete, completed_by_admin,
}
use fastmotion_delivery.Admin.Counts.{total_count, reassign_counts}
use fastmotion_delivery.Admin.Gaps.{completed_uncredited}
use fastmotion_delivery.Tests.Data.{with_delivery, taken_delivery, with_payment, payment_doc}
use DeliveryStatus.{in_transit, delivery_in_progress}

abbrev transit_doc : Delivery
transit_doc = taken_delivery in_transit PaymentStatus.paid

abbrev transit_db : Db
transit_db = with_delivery transit_doc

reassign_counts_example :
    let t = (reassign_rider 8 5 10 transit_db).1 in
    ((transit_doc.rider ≡ none) × (total_count t.riders ≡ total_count transit_db.riders +ℤ pos 1))
    ⊎ ((p : ℕ) × (transit_doc.rider ≡ some p)
        × ((lookup p transit_db.riders ≡ none)
            ⊎ (total_count t.riders ≡ total_count transit_db.riders)))
unfolding lookup reassign_rider find_assignable unassign
reassign_counts_example = reassign_counts 8 5 10 transit_doc transit_db refl refl

abbrev handing_doc : Delivery
handing_doc = taken_delivery delivery_in_progress PaymentStatus.paid

abbrev handing_db : Db
handing_db = with_delivery handing_doc

completed_uncredited_example :
    let t = (manual_complete 5 10 handing_db).1 in
    (lookup 5 t.deliveries ≡ some (completed_by_admin 10 handing_doc))
    × (t.earnings ≡ handing_db.earnings)
    × (t.platform_earnings ≡ handing_db.platform_earnings)
    × Untouched t (verify_delivery_pin 7 5 5678 20 9 t)
unfolding lookup
completed_uncredited_example =
    completed_uncredited 7 5 5678 10 20 9 handing_doc handing_db refl refl

abbrev paid_db : Db
paid_db =
    with_payment (payment_doc (some 5) PaymentStatus.paid Purpose.delivery_payment) transit_doc

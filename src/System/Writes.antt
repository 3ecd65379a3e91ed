-- ===== src/System/Writes.antt =====
-- What one write does to the riders of the deliveries.
use fastmotion_delivery.Base.{ℕ, ◌≡◌, sym, subst, some}
use fastmotion_delivery.Base.Dict.{lookup, update, Always}
use fastmotion_delivery.Model.{Db, Delivery}
use fastmotion_delivery.Rider.Workflow.Manned.{RiderRides, IsManned}
use fastmotion_delivery.Admin.Checks.{update-IsManned}

-- The deliveries that a request leaves as they were, updates, or adds to.
pub same-IsManned : (s t : Db) → IsManned s → t.deliveries ≡ s.deliveries → IsManned t
same-IsManned s t h e = subst (Always (λ _ d. RiderRides d.status d.rider)) (sym e) h

pub changed-IsManned :
    (id : ℕ) (f : Delivery → Delivery) (s t : Db)
    → IsManned s
    → ((d : Delivery)
        → lookup id s.deliveries ≡ some d
        → RiderRides d.status d.rider
        → RiderRides (f d).status (f d).rider)
    → t.deliveries ≡ update id f s.deliveries
    → IsManned t
changed-IsManned id f s t h keep e =
    subst (Always (λ _ d. RiderRides d.status d.rider)) (sym e) (update-IsManned id f s h keep)

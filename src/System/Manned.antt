-- ===== src/System/Manned.antt =====
-- The riders of the deliveries over sequences of requests to the three services.
use fastmotion_delivery.Base.{[], ◌∷◌}
use fastmotion_delivery.Model.{Db}
use fastmotion_delivery.Rider.Workflow.Request.{run}
use fastmotion_delivery.Rider.Workflow.Manned.{IsManned, run-IsManned}
use fastmotion_delivery.Admin.{PinType}
use fastmotion_delivery.Admin.Checks.{admin-IsManned}
use fastmotion_delivery.System.Requests.{Step, Reaches, at_start, one_more}
use fastmotion_delivery.System.ByCustomer.{ask-IsManned}
use fastmotion_delivery.System.ByPayment.{serve-IsManned}
use fastmotion_delivery.System.BySearch.{turn-IsManned}
use fastmotion_delivery.System.ByAdmin.{admin_cancel-IsManned, price-IsManned, refund-IsManned}

-- One step keeps every delivery for which a rider is looked for without one, and every delivery that is
-- under way or handed over with one.
Step-IsManned : {s t : Db} → Step s t → IsManned s → IsManned t
unfolding run
Step-IsManned (Step.by_rider c s) h = run-IsManned (c ∷ []) s h
Step-IsManned (Step.by_customer r s) h = ask-IsManned r s h
Step-IsManned (Step.by_payment r s) h = serve-IsManned r s h
Step-IsManned (Step.by_search now t s) h = turn-IsManned now t s h
Step-IsManned (Step.assigned rider id now s) h = (admin-IsManned rider id now PinType.pickup s h).0
Step-IsManned (Step.pin_overridden id pin now s) h = (admin-IsManned 0 id now pin s h).1
Step-IsManned (Step.admin_cancelled id refund amount now s) h =
    admin_cancel-IsManned id s h refund amount now
Step-IsManned (Step.price_adjusted id price s) h = price-IsManned id s h price
Step-IsManned (Step.refund_issued id amount full reference now s) h =
    refund-IsManned id s h amount full reference now

-- Over any sequence of these, in any order: the requests of riders on deliveries (less their positions),
-- those of customers on deliveries and payments, the events of the payment provider, the turns of the
-- search for riders, and an admin who assigns a rider, overrides a PIN, cancels or refunds a delivery or
-- changes its price. A delivery for which a rider is looked for has none; and one that is accepted, assigned, on
-- the way to the pickup, there, waiting for its payment there, picked up, on the road or handed over has
-- a rider, if it was so at the start. In the statuses `payment_confirmed` and `pickup_in_progress` a
-- delivery may have a rider or none.
pub Reaches-IsManned : {s t : Db} → Reaches s t → IsManned s → IsManned t
Reaches-IsManned at_start h = h
Reaches-IsManned (one_more r st) h = Step-IsManned st (Reaches-IsManned r h)

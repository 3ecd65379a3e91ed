-- ===== src/Rider/Workflow/Manned.antt =====
-- Which deliveries have a rider at all times, also when payments come in between.
use fastmotion_delivery.Base.{ℕ, ◌≡◌, refl, true, false, Option, [], ◌∷◌, arith, is_some, List}
use fastmotion_delivery.Base.Dict.{Always}
use fastmotion_delivery.Model.{Db, DeliveryStatus, Delivery, includes}
use fastmotion_delivery.Rider.Progress.{valid_transitions}
use fastmotion_delivery.Rider.Workflow.Request.{
  Request, accept, update_status, toggle, handle, Call, run,
}
use fastmotion_delivery.Rider.Workflow.Writes.{target, Passed, change, handle-Wrote}
use fastmotion_delivery.Rider.Workflow.Invariant.{Wrote-Always}
use DeliveryStatus.{
  pending, searching_rider, payment_confirmed, pickup_in_progress, cancelled, failed, scheduled,
}

-- A delivery for which a rider is looked for has none. One that was accepted or assigned has a rider
-- from then on; between the payment and the pickup it may have one or none.
abbrev pub RiderRides : DeliveryStatus → Option ℕ → Type 0
RiderRides pending r = Unit
RiderRides searching_rider r = is_some r ≡ false
RiderRides payment_confirmed r = Unit
RiderRides pickup_in_progress r = Unit
RiderRides cancelled r = Unit
RiderRides failed r = Unit
RiderRides scheduled r = Unit
RiderRides _ r = is_some r ≡ true

abbrev pub IsManned : Db → Type 0
IsManned s = Always (λ _ d. RiderRides d.status d.rider) s.deliveries

transition-RiderRides :
    (new old : DeliveryStatus) (r : Option ℕ)
    → is_some r ≡ true
    → includes new (valid_transitions old) ≡ true
    → RiderRides new r
transition-RiderRides searching_rider old r h i = ground arith
transition-RiderRides _ old r h i = ground arith

change-RiderRides :
    (rider now : ℕ) (r : Request) (read d : Delivery)
    → Passed rider r d
    → RiderRides d.status d.rider
    → RiderRides (change rider now r read d).status (change rider now r read d).rider
change-RiderRides rider now (accept doc id) read d p q = refl
change-RiderRides rider now (update_status id new) read d p q =
    ground (arith, transition-RiderRides new d.status d.rider)
change-RiderRides rider now (toggle doc) read d p q = q
change-RiderRides rider now _ read d p q = ground arith

pub run-IsManned : (cs : List Call) (s : Db) → IsManned s → IsManned (run cs s)
unfolding run
run-IsManned [] s h = h
run-IsManned (c ∷ cs) s h = run-IsManned cs (handle c.rider c.now c.request s) (
    Wrote-Always (λ d. RiderRides d.status d.rider) (Passed c.rider c.request)
      (change c.rider c.now c.request) (target c.request) s (handle c.rider c.now c.request s)
      (change-RiderRides c.rider c.now c.request) (handle-Wrote c.rider c.now c.request s) h)

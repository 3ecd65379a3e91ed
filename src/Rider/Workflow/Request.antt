-- ===== src/Rider/Workflow/Request.antt =====
-- The requests of apps/delivery-api/src/delivery/delivery.controller.ts that write, and a run of
-- them: a list of requests, each of a rider at a time. A request that throws leaves what it wrote
-- before the throw.
use fastmotion_delivery.Base.{ℕ, Bool, true, false, List, [], ◌∷◌}
use fastmotion_delivery.Model.{Db, DeliveryStatus, Rider}
use fastmotion_delivery.Rider.Accept.{accept_delivery, reject_delivery}
use fastmotion_delivery.Rider.Progress.{
  update_delivery_status, arrived_at_pickup, arrived_at_dropoff, toggle_online_status,
}
use fastmotion_delivery.Rider.Pins.{verify_pickup_pin, verify_delivery_pin}

pub data Request : Type 0 where
  accept : (doc : Rider) (id : ℕ) → Request
  reject : (id : ℕ) → Request
  update_status : (id : ℕ) (new : DeliveryStatus) → Request
  pickup_pin : (id pin : ℕ) → Request
  delivery_pin : (id pin new_id : ℕ) → Request
  at_pickup : (id pickup delivery : ℕ) → Request
  at_dropoff : (id : ℕ) → Request
  toggle : (doc : Rider) → Request

unfoldable pub handle : (rider now : ℕ) → Request → Db → Db
handle rider now (accept doc id) s = (accept_delivery rider doc id now s).1
handle rider now (reject id) s = (reject_delivery rider id s).1
handle rider now (update_status id new) s = (update_delivery_status rider id new now s).1
handle rider now (pickup_pin id pin) s = (verify_pickup_pin rider id pin s).1
handle rider now (delivery_pin id pin new_id) s = (verify_delivery_pin rider id pin now new_id s).1
handle rider now (at_pickup id p q) s = (arrived_at_pickup rider id p q now s).1
handle rider now (at_dropoff id) s = (arrived_at_dropoff rider id now s).1
handle rider now (toggle doc) s = (toggle_online_status rider doc s).1

abbrev pub Call : Type 0
Call = record { rider : ℕ; now : ℕ; request : Request }

unfoldable pub run : List Call → Db → Db
run [] s = s
run (c ∷ cs) s = run cs (handle c.rider c.now c.request s)

abbrev pub is_reject : Request → Bool
is_reject (reject _) = true
is_reject _ = false

-- ===== src/Payment/Listener.antt =====
-- apps/user-api/src/payment/listeners/refund.listener.ts: the refunds that other services ask for.
use fastmotion_delivery.Base.{ℕ, suc, List, [], ◌∷◌}
use fastmotion_delivery.Model.{Handler, Event, ⊤, ok, pure, ◌>>◌}
use fastmotion_delivery.Payment.Initiate.{process_refund}

-- `handleDeliveryRefund`, which drops the errors; `reference` is the one of the refund's payment. Other
-- events are not for this listener.
abbrev pub hear_refund : (reference now : ℕ) → Event → Handler ⊤
hear_refund reference now (Event.refund_requested id user amount) s =
    (ok tt, (process_refund user id amount reference now s).1)
hear_refund reference now _ s = (ok tt, s)

-- The events of the bus in their order.
abbrev pub hear_all : (reference now : ℕ) → List Event → Handler ⊤
hear_all reference now [] = pure tt
hear_all reference now (e ∷ es) = hear_refund reference now e >> hear_all (suc reference) now es

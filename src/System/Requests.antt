-- ===== src/System/Requests.antt =====
-- One request of a rider (apps/delivery-api/src/delivery/delivery.controller.ts) or of a customer
-- (apps/user-api/src/delivery/delivery.controller.ts and src/payment/payment.controller.ts), one event
-- of the payment provider, one turn of the search for riders (src/delivery/rider-matching.service.ts),
-- or one request of an admin who assigns a rider, overrides a PIN, cancels or refunds a delivery or
-- changes its price (apps/admin-api/src/delivery/delivery.controller.ts), and any sequence of them.
use fastmotion_delivery.Base.{ℕ, Bool, Option}
use fastmotion_delivery.Model.{Db}
use fastmotion_delivery.Rider.Workflow.Request.{Call, handle}
use fastmotion_delivery.Payment.{PaymentRequest, serve}
use fastmotion_delivery.Matching.{Turn, turn}
use fastmotion_delivery.Customer.{CustomerRequest, ask}
use fastmotion_delivery.Admin.{
  PinType, assign_rider, override_pin, manual_cancel, adjust_price, issue_refund,
}

pub data Step : Db → Db → Type 0 where
  by_rider : (c : Call) (s : Db) → Step s (handle c.rider c.now c.request s)
  by_customer : (r : CustomerRequest) (s : Db) → Step s (ask r s).1
  by_payment : (r : PaymentRequest) (s : Db) → Step s (serve r s).1
  by_search : (now : ℕ) (t : Turn) (s : Db) → Step s (turn now t s).1
  assigned : (rider id now : ℕ) (s : Db) → Step s (assign_rider rider id now s).1
  pin_overridden :
      (id : ℕ) (pin : PinType) (now : ℕ) (s : Db) → Step s (override_pin id pin now s).1
  admin_cancelled :
      (id : ℕ) (refund : Bool) (amount : Option ℕ) (now : ℕ) (s : Db)
      → Step s (manual_cancel id refund amount now s).1
  price_adjusted : (id price : ℕ) (s : Db) → Step s (adjust_price id price s).1
  refund_issued :
      (id amount : ℕ) (full : Bool) (reference now : ℕ) (s : Db)
      → Step s (issue_refund id amount full reference now s).1

pub data Reaches (s : Db) : Db → Type 0 where
  at_start : Reaches s s
  one_more : {t u : Db} → Reaches s t → Step t u → Reaches s u

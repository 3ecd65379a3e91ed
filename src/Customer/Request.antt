-- ===== src/Customer/Request.antt =====
-- What a customer can ask of the delivery service, by apps/user-api/src/delivery/
-- delivery.controller.ts, but for the questions that are only answered.
use fastmotion_delivery.Base.{ℕ, Option, List, [], ◌∷◌}
use fastmotion_delivery.Model.{Db, Handler, ⊤, ok, err}
use fastmotion_delivery.Customer.Queries.{World, Catalogue}
use fastmotion_delivery.Customer.Quoting.{Order}
use fastmotion_delivery.Customer.Create.{create_delivery_request}
use fastmotion_delivery.Customer.Cancel.{cancel_delivery}
use fastmotion_delivery.Customer.Pickup.{
  initiate_pickup_payment, confirm_pickup_payment, retry_rider_matching,
}
use fastmotion_delivery.Customer.Reschedule.{reschedule_delivery, confirm_reschedule_payment}

pub data CustomerRequest : Type 0 where
  create : World → Catalogue → (user id now : ℕ) → Order → CustomerRequest
  cancel : (user id now : ℕ) → CustomerRequest
  pay_at_pickup : (user id now : ℕ) → CustomerRequest
  confirm_payment : (user id pickup pin : ℕ) → CustomerRequest
  retry : (user id : ℕ) → CustomerRequest
  reschedule : (user id time : ℕ) → Option ℕ → CustomerRequest
  confirm_reschedule : (user id : ℕ) → CustomerRequest

-- The answer is not looked at.
abbrev pub discard : {A : Type 0} → Handler A → Handler ⊤
discard m s = let (r, t) = m s in (elim r [ ok _ ↦ ok tt | err e ↦ err e ], t)

unfoldable pub ask : CustomerRequest → Handler ⊤
ask (CustomerRequest.create w cat user id now o) =
    discard (create_delivery_request w cat user id now o)
ask (CustomerRequest.cancel user id now) = discard (cancel_delivery user id now)
ask (CustomerRequest.pay_at_pickup user id now) = discard (initiate_pickup_payment user id now)
ask (CustomerRequest.confirm_payment user id pickup pin) =
    discard (confirm_pickup_payment user id pickup pin)
ask (CustomerRequest.retry user id) = retry_rider_matching user id
ask (CustomerRequest.reschedule user id time multiplier) =
    discard (reschedule_delivery user id time multiplier)
ask (CustomerRequest.confirm_reschedule user id) = discard (confirm_reschedule_payment user id)

-- Requests one after the other; a failed one leaves what it wrote.
unfoldable pub ask_all : List CustomerRequest → Db → Db
ask_all [] s = s
ask_all (r ∷ rs) s = ask_all rs (ask r s).1

-- ===== src/Tests/SystemRuns.antt =====
-- The theorems on the services together at concrete states.
use fastmotion_delivery.Base.{some, true, arith}
use fastmotion_delivery.Base.Dict.{lookup}
use fastmotion_delivery.Model.{Db, PaymentMethod}
use fastmotion_delivery.Payment.{PaymentRequest, serve}
use fastmotion_delivery.Matching.{Turn, turn}
use fastmotion_delivery.Rider.Workflow.Request.{Request, handle}
use fastmotion_delivery.Rider.Workflow.Manned.{IsManned}
use fastmotion_delivery.Customer.{CustomerRequest, ask}
use fastmotion_delivery.Admin.{assign_rider}
use fastmotion_delivery.System.{Step, Reaches}
use fastmotion_delivery.System.Manned.{Reaches-IsManned}
use fastmotion_delivery.Tests.Data.{with_delivery, free_delivery}

abbrev free_db : Db
free_db = with_delivery free_delivery

free-IsManned : IsManned free_db
unfolding lookup
free-IsManned k v e = ground arith

-- A search begins and the customer asks to pay by wallet, which is empty. The admin gives the delivery
-- to the rider 8, who arrives at the pickup; the customer cancels.
abbrev search : Turn
search = Turn.created (λ k. some 100) 5

abbrev searched_db : Db
searched_db = (turn 5 search free_db).1

abbrev payment : PaymentRequest
payment = PaymentRequest.initiate 30 5 11 PaymentMethod.wallet 1111 2222 6 true

abbrev asked_db : Db
asked_db = (serve payment searched_db).1

abbrev assigned_db : Db
assigned_db = (assign_rider 8 5 10 asked_db).1

abbrev arrived_db : Db
arrived_db = handle 8 20 (Request.at_pickup 5 1111 2222) assigned_db

abbrev cancelled_db : Db
cancelled_db = (ask (CustomerRequest.cancel 30 5 30) arrived_db).1

free-Reaches : Reaches free_db cancelled_db
free-Reaches =
    Reaches.one_more
      (Reaches.one_more
        (Reaches.one_more
          (Reaches.one_more (Reaches.one_more Reaches.at_start (Step.by_search 5 search free_db))
            (Step.by_payment payment searched_db))
          (Step.assigned 8 5 10 asked_db))
        (Step.by_rider (record { rider = 8; now = 20; request = Request.at_pickup 5 1111 2222 })
          assigned_db))
      (Step.by_customer (CustomerRequest.cancel 30 5 30) arrived_db)

Reaches-IsManned_example : IsManned cancelled_db
Reaches-IsManned_example = Reaches-IsManned free-Reaches free-IsManned

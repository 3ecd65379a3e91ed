-- ===== src/Tests/DisputeRuns.antt =====
-- The theorems on disputes at concrete states.
use fastmotion_delivery.Base.{inl, ◌≡◌, ◌↔◌, refl, true, none, some, List, [], ◌∷◌, arith}
use fastmotion_delivery.Base.Dict.{lookup}
use fastmotion_delivery.Model.{
  Db, Delivery, DeliveryStatus, PaymentStatus, Dispute, DisputeStatus, DisputeReason, is_ok,
}
use fastmotion_delivery.Disputes.{
  Complaint, create_dispute, new_dispute, Decision, decided, CustomerWord, say_all, DisputeRequest,
  deal, Deals, completion_date,
}
use fastmotion_delivery.Disputes.Filed.{IsFiled, Deals-IsFiled}
use fastmotion_delivery.Disputes.History.{closed_stays, Continues, Deals-Continues}
use fastmotion_delivery.Disputes.Access.{Undisputed, IsRecent, IsDisputable, create_iff}
use fastmotion_delivery.Tests.Data.{with_delivery, taken_delivery}

abbrev delivered_db : Db
delivered_db = with_delivery (taken_delivery DeliveryStatus.delivered PaymentStatus.paid)

abbrev damaged : Complaint
damaged = record {
  reason = DisputeReason.parcel_damaged;
  description = 70;
  attachments = 71 ∷ [];
  request_refund = true;
}

abbrev resolution_doc : Decision
resolution_doc = record {
  status = DisputeStatus.resolved;
  resolution = some 80;
  refund_approved = some true;
}

-- The customer complains, an admin takes the dispute, and decides it.
abbrev complained : Db
complained = (deal (DisputeRequest.create 30 5 60 61 damaged 100) delivered_db).1

abbrev taken : Db
taken = (deal (DisputeRequest.assign 90 60 110) complained).1

abbrev decided_db : Db
decided_db = (deal (DisputeRequest.decide 90 60 81 resolution_doc 120) taken).1

whole_dispute : Deals delivered_db decided_db
whole_dispute =
    Deals.next
      (Deals.next (Deals.next Deals.here (DisputeRequest.create 30 5 60 61 damaged 100))
        (DisputeRequest.assign 90 60 110))
      (DisputeRequest.decide 90 60 81 resolution_doc 120)

delivered-IsFiled : IsFiled delivered_db.disputes delivered_db.deliveries
unfolding lookup
delivered-IsFiled = record {
  single = λ i j x y ei ej same. ground arith;
  marked = λ i x e. cc;
  signed = λ i x e. cc;
}

abbrev dispute_doc : Dispute
dispute_doc = new_dispute 30 5 61 100 damaged (some 7) none

abbrev closed_doc : Dispute
closed_doc = decided 90 81 resolution_doc 120 dispute_doc

abbrev closed_db : Db
closed_db = record delivered_db { disputes = (60, closed_doc) ∷ [] }

-- The customer goes on writing.
abbrev words : List CustomerWord
words = CustomerWord.message 30 60 72 [] 130 ∷ CustomerWord.change 30 60 (some 73) [] ∷ []

Deals-IsFiled_example : IsFiled decided_db.disputes decided_db.deliveries
Deals-IsFiled_example = Deals-IsFiled delivered-IsFiled whole_dispute

closed_stays_example : lookup 60 (say_all words closed_db).disputes ≡ some closed_doc
unfolding lookup
closed_stays_example = closed_stays words 60 closed_doc closed_db refl (inl refl)

abbrev open_db : Db
open_db = record delivered_db { disputes = (60, dispute_doc) ∷ [] }

abbrev answered_db : Db
answered_db = (deal (DisputeRequest.answer 90 60 82 [] 130) open_db).1

Deals-Continues_example :
    (y : Dispute) × (lookup 60 answered_db.disputes ≡ some y) × Continues dispute_doc y
unfolding lookup
Deals-Continues_example =
    Deals-Continues 60 dispute_doc (Deals.next Deals.here (DisputeRequest.answer 90 60 82 [] 130))
      refl

create_iff_example : (is_ok (create_dispute 30 5 60 61 damaged 100 delivered_db).0 ≡ true) ↔ (
    (d : Delivery) × (lookup 5 delivered_db.deliveries ≡ some d)
    × (d.customer ≡ 30)
    × Undisputed 5 delivered_db.disputes
    × IsDisputable d.status
    × IsRecent 100 (completion_date d))
create_iff_example = create_iff 30 5 60 61 100 damaged delivered_db

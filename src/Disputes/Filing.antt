-- ===== src/Disputes/Filing.antt =====
-- apps/user-api/src/dispute/dispute.service.ts and repository/dispute.repository.ts: a customer
-- complains about a delivery, adds messages and changes the description.
use fastmotion_delivery.Base.{
  ℕ, ◌+◌, Bool, true, false, not, ◌&&◌, ◌||◌, Option, none, some, List, [], ◌∷◌, ◌++◌, ◌==◌, ltb,
  get_or,
}
use fastmotion_delivery.Base.Int.{ℤ, pos, ◌-ℤ◌}
use fastmotion_delivery.Base.Dict.{Dict, lookup, update}
use fastmotion_delivery.Model.{
  Delivery, DeliveryStatus, Payment, Dispute, DisputeMessage, DisputeStatus, DisputeReason,
  Priority, SenderType, Handler, HttpError, Event, ⊤, gets, some_or, require, modify, send,
  update_delivery, includes, ◌>>=◌, ◌>>◌,
}
use fastmotion_delivery.Payment.{find_payment_by_delivery}

-- `disputeModel.findOne({ deliveryRequest })`
unfoldable pub has_complaint : (delivery : ℕ) → Dict Dispute → Bool
has_complaint delivery [] = false
has_complaint delivery ((k, d) ∷ ds) = d.delivery_request == delivery || has_complaint delivery ds

abbrev pub disputable_statuses : List DeliveryStatus
disputable_statuses =
    DeliveryStatus.delivered ∷ DeliveryStatus.completed ∷ DeliveryStatus.cancelled
    ∷ DeliveryStatus.failed ∷ DeliveryStatus.in_transit ∷ []

-- `completedAt || cancelledAt || deliveredAt`
abbrev pub completion_date : Delivery → Option ℕ
completion_date d = elim d.completed_at [
  | some t ↦ some t
  | none ↦ elim d.cancelled_at [ some t ↦ some t | none ↦ d.delivered_at ]
]

-- 7 days are 604,800,000 milliseconds.
abbrev pub is_recent : (now : ℕ) → Option ℕ → Bool
is_recent now none = true
is_recent now (some t) = not (ltb (t + 604_800_000) now)

-- `canCreateDispute`, once the delivery is there
unfoldable pub can_create : (user id now : ℕ) → Delivery → Dict Dispute → Bool
can_create user id now d ds =
    d.customer == user
    && (not (has_complaint id ds)
        && (includes d.status disputable_statuses && is_recent now (completion_date d)))

-- `getPriorityFromReason`
abbrev pub priority_of : DisputeReason → Priority
priority_of DisputeReason.parcel_lost = Priority.high
priority_of DisputeReason.parcel_damaged = Priority.high
priority_of DisputeReason.delivery_not_completed = Priority.high
priority_of DisputeReason.wrong_delivery = Priority.medium
priority_of DisputeReason.rider_misconduct = Priority.medium
priority_of DisputeReason.overcharged = Priority.medium
priority_of DisputeReason.late_delivery = Priority.low
priority_of DisputeReason.other = Priority.low

-- The amount left of the first payment of the delivery, if a refund is asked for.
abbrev pub refundable : (asked : Bool) (id : ℕ) → Dict Payment → Option ℤ
refundable false id ps = none
refundable true id ps = elim (find_payment_by_delivery id ps) [
  | none ↦ none
  | some (r, p) ↦ some (pos p.amount -ℤ pos p.refunded_amount)
]

-- What a customer says about a delivery.
pub record Complaint : Type 0 where
  pub reason : DisputeReason
  pub description : ℕ
  pub attachments : List ℕ
  pub request_refund : Bool

abbrev pub customer_message : (user message : ℕ) (attachments : List ℕ) (now : ℕ) → DisputeMessage
customer_message user message attachments now = record {
  sender_id = user;
  sender_type = SenderType.customer;
  message = message;
  attachments = attachments;
  created_at = now;
}

abbrev pub new_dispute :
    (user id ticket now : ℕ) → Complaint → (rider : Option ℕ) → (refund : Option ℤ) → Dispute
new_dispute user id ticket now c rider refund = record {
  ticket_number = ticket;
  delivery_request = id;
  customer = user;
  rider = rider;
  reason = c.reason;
  description = c.description;
  status = DisputeStatus.opened;
  priority = priority_of c.reason;
  attachments = c.attachments;
  messages = customer_message user c.description c.attachments now ∷ [];
  resolution = none;
  resolved_at = none;
  resolved_by = none;
  refund_requested = c.request_refund;
  refund_amount = refund;
  refund_approved = false;
  assigned_to = none;
  assigned_at = none;
}

abbrev pub disputed : Delivery → Delivery
disputed d = record d { has_dispute = true }

-- From the creation of the dispute on.
unfoldable pub store_dispute : (dispute_id id : ℕ) → Dispute → Handler ⊤
store_dispute dispute_id id x = do
  modify (λ s. record s { disputes = s.disputes ++ ((dispute_id, x) ∷ []) })
  update_delivery id disputed
  send (Event.dispute_created dispute_id id x.rider)

-- `createDispute`; `dispute_id` and `ticket` are the id and the ticket number of the dispute.
unfoldable pub create_dispute : (user id dispute_id ticket : ℕ) → Complaint → (now : ℕ) → Handler ⊤
create_dispute user id dispute_id ticket c now = do
  o ← gets (λ s. lookup id s.deliveries)
  d ← some_or o HttpError.bad_request
  ds ← gets (λ s. s.disputes)
  require (can_create user id now d ds) HttpError.bad_request
  refund ← gets (λ s. refundable c.request_refund id s.payments)
  store_dispute dispute_id id (new_dispute user id ticket now c d.rider refund)

abbrev pub update_dispute_document : ℕ → (Dispute → Dispute) → Handler ⊤
update_dispute_document k f = modify λ s. record s { disputes = update k f s.disputes }

-- `findById`, and a throw where there is no dispute
abbrev pub find_dispute : ℕ → Handler Dispute
find_dispute k = gets (λ s. lookup k s.disputes) >>= λ o. some_or o HttpError.not_found

abbrev pub is_closed : DisputeStatus → Bool
is_closed DisputeStatus.resolved = true
is_closed DisputeStatus.closed = true
is_closed _ = false

-- `addMessage`
abbrev pub with_message : DisputeMessage → Dispute → Dispute
with_message m x = record x { messages = x.messages ++ (m ∷ []) }

-- `addDisputeMessage`
unfoldable pub add_dispute_message :
    (user id message : ℕ) (attachments : List ℕ) (now : ℕ) → Handler ⊤
add_dispute_message user id message attachments now = do
  x ← find_dispute id
  require (x.customer == user) HttpError.forbidden
  require (not (is_closed x.status)) HttpError.bad_request
  update_dispute_document id (with_message (customer_message user message attachments now))
  send (Event.dispute_message_added id)

abbrev pub with_details : (description : Option ℕ) (attachments : List ℕ) → Dispute → Dispute
with_details description attachments x = record x {
  description = get_or description x.description;
  attachments = x.attachments ++ attachments;
}

-- `updateDispute`
unfoldable pub update_dispute :
    (user id : ℕ) (description : Option ℕ) (attachments : List ℕ) → Handler ⊤
update_dispute user id description attachments = do
  x ← find_dispute id
  require (x.customer == user) HttpError.forbidden
  require (not (is_closed x.status)) HttpError.bad_request
  update_dispute_document id (with_details description attachments)

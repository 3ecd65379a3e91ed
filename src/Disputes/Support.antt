-- ===== src/Disputes/Support.antt =====
-- apps/admin-api/src/dispute/dispute.service.ts: an admin takes a dispute, answers and decides it.
use fastmotion_delivery.Base.{
  ℕ, Bool, true, false, Option, none, some, List, [], if◌then◌else◌, get_or,
}
use fastmotion_delivery.Model.{
  Dispute, DisputeMessage, DisputeStatus, SenderType, Handler, Event, ⊤, when, send, ◌>>=◌, ◌>>◌,
}
use fastmotion_delivery.Disputes.Filing.{find_dispute, update_dispute_document, with_message}

-- The request of `updateDisputeStatus`.
pub record Decision : Type 0 where
  pub status : DisputeStatus
  pub resolution : Option ℕ
  pub refund_approved : Option Bool

abbrev pub is_resolved : DisputeStatus → Bool
is_resolved DisputeStatus.resolved = true
is_resolved _ = false

abbrev pub is_open : DisputeStatus → Bool
is_open DisputeStatus.opened = true
is_open _ = false

-- A given `resolution`, and the `resolution` of before where none is given.
abbrev pub or_before {ℓ} : {A : Type ℓ} → Option A → Option A → Option A
or_before none old = old
or_before (some a) old = some a

abbrev pub admin_message : (admin message : ℕ) (attachments : List ℕ) (now : ℕ) → DisputeMessage
admin_message admin message attachments now = record {
  sender_id = admin;
  sender_type = SenderType.admin;
  message = message;
  attachments = attachments;
  created_at = now;
}

-- The update of `updateDisputeStatus`; `text` is the text of its system message.
abbrev pub decided : (admin text : ℕ) → Decision → (now : ℕ) → Dispute → Dispute
decided admin text v now x = with_message (admin_message admin text [] now) (record x {
  status = v.status;
  resolution = or_before v.resolution x.resolution;
  resolved_at = if is_resolved v.status then some now else x.resolved_at;
  resolved_by = if is_resolved v.status then some admin else x.resolved_by;
  refund_approved = get_or v.refund_approved x.refund_approved;
})

-- `updateDisputeStatus`; every status but `open` has an entry in STATUS_NOTIF_MAP.
unfoldable pub update_dispute_status : (admin id text : ℕ) → Decision → (now : ℕ) → Handler ⊤
update_dispute_status admin id text v now = do
  x ← find_dispute id
  update_dispute_document id (decided admin text v now)
  when (if is_open v.status then false else true) (send (Event.notified x.customer id))

-- `addAdminMessage`
unfoldable pub add_admin_message :
    (admin id message : ℕ) (attachments : List ℕ) (now : ℕ) → Handler ⊤
add_admin_message admin id message attachments now = do
  x ← find_dispute id
  update_dispute_document id (with_message (admin_message admin message attachments now))
  send (Event.notified x.customer id)

abbrev pub taken_by : (admin now : ℕ) → Dispute → Dispute
taken_by admin now x = record x {
  assigned_to = some admin;
  assigned_at = some now;
  status = if is_open x.status then DisputeStatus.in_review else x.status;
}

-- `assignDispute`
unfoldable pub assign_dispute : (admin id now : ℕ) → Handler ⊤
assign_dispute admin id now = do
  x ← find_dispute id
  update_dispute_document id (taken_by admin now)
  when (is_open x.status) (send (Event.notified x.customer id))

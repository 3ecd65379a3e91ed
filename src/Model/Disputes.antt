-- ===== src/Model/Disputes.antt =====
-- libs/database/src/schemas/dispute.schema.ts. Texts, attachments and ids are numbers.
use fastmotion_delivery.Base.{ℕ, Bool, Option, List}
use fastmotion_delivery.Base.Int.{ℤ}

pub data DisputeStatus : Type 0 where
  opened in_review resolved closed escalated : DisputeStatus

pub data DisputeReason : Type 0 where
  delivery_not_completed parcel_damaged parcel_lost wrong_delivery : DisputeReason
  late_delivery rider_misconduct overcharged other : DisputeReason

pub data Priority : Type 0 where
  low medium high : Priority

pub data SenderType : Type 0 where
  customer admin : SenderType

pub record DisputeMessage : Type 0 where
  pub sender_id : ℕ
  pub sender_type : SenderType
  pub message : ℕ
  pub attachments : List ℕ
  pub created_at : ℕ

-- `ticket_number` is the dispute's own number for people; `attachments` are those of the dispute.
pub record Dispute : Type 0 where
  pub ticket_number : ℕ
  pub delivery_request : ℕ
  pub customer : ℕ
  pub rider : Option ℕ
  pub reason : DisputeReason
  pub description : ℕ
  pub status : DisputeStatus
  pub priority : Priority
  pub attachments : List ℕ
  pub messages : List DisputeMessage
  pub resolution : Option ℕ
  pub resolved_at : Option ℕ
  pub resolved_by : Option ℕ
  pub refund_requested : Bool
  pub refund_amount : Option ℤ
  pub refund_approved : Bool
  pub assigned_to : Option ℕ
  pub assigned_at : Option ℕ

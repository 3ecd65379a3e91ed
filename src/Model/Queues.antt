-- ===== src/Model/Queues.antt =====
-- libs/common/src/modules/delivery-matching/delivery-matching-redis.service.ts: what Redis keeps
-- while riders are asked for a delivery. Times are in milliseconds.
use fastmotion_delivery.Base.{ℕ, List}

pub data MatchingStatus : Type 0 where
  active accepted exhausted : MatchingStatus

-- `MatchingState`, with the end of the key's time to live.
pub record MatchingState : Type 0 where
  pub rider_ids : List ℕ
  pub rider_index : ℕ
  pub customer_id : ℕ
  pub sent_at : ℕ
  pub status : MatchingStatus
  pub expires_at : ℕ

-- A cooldown key with the end of its time to live.
pub record Cooldown : Type 0 where
  pub rider : ℕ
  pub customer : ℕ
  pub expires_at : ℕ

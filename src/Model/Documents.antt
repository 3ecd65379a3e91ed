-- ===== src/Model/Documents.antt =====
-- libs/database/src/schemas: the fields that the modelled handlers read or write. Strings that are
-- only compared (object ids, PINs, references, reasons, bank names) are numbers, dates are
-- milliseconds, money is in whole naira and rates are in ten-thousandths.
use fastmotion_delivery.Base.{ℕ, Bool, Option}
use fastmotion_delivery.Model.Accounts.{RiderAccount}
use fastmotion_delivery.Base.Int.{ℤ}
use fastmotion_delivery.Model.Status.{
  DeliveryStatus, DeliveryType, RiderStatus, VerificationStatus, PaymentStatus,
}

-- deliveryRequest.schema.ts; `total_price`, `service_fee` and `time_multiplier` are fields of `pricing`.
pub record Delivery : Type 0 where
  pub customer : ℕ
  pub rider : Option ℕ
  pub delivery_type : DeliveryType
  pub status : DeliveryStatus
  pub total_price : ℕ
  pub service_fee : ℕ
  pub time_multiplier : Option ℕ
  pub payment_status : PaymentStatus
  pub scheduled_pickup_time : Option ℕ
  pub pickup_pin : Option ℕ
  pub delivery_pin : Option ℕ
  pub pickup_pin_verified : Bool
  pub delivery_pin_verified : Bool
  pub pickup_pin_overridden : Bool
  pub delivery_pin_overridden : Bool
  pub rider_accepted_at : Option ℕ
  pub rider_assigned_at : Option ℕ
  pub arrived_at_pickup_at : Option ℕ
  pub picked_up_at : Option ℕ
  pub arrived_at_dropoff_at : Option ℕ
  pub delivered_at : Option ℕ
  pub completed_at : Option ℕ
  pub cancelled_at : Option ℕ
  pub payment_requested_at : Option ℕ
  pub can_reschedule : Bool
  pub payment_required_at_pickup : Bool
  pub reschedule_count : ℕ
  pub is_rated : Bool
  pub has_dispute : Bool

-- rider.schema.ts; `average_rating` is in tenths of a star; `$inc` may take the counters below zero.
pub record Rider : Type 0 where
  pub status : RiderStatus
  pub verification_status : VerificationStatus
  pub is_online : Bool
  pub is_active : Bool
  pub is_suspended : Bool
  pub total_deliveries : ℕ
  pub total_earnings : ℕ
  pub wallet_balance : ℤ
  pub bank_name : Option ℕ
  pub bank_account_number : Option ℕ
  pub max_concurrent_deliveries : ℕ
  pub current_delivery_count : ℤ
  pub average_rating : ℕ
  pub total_ratings : ℕ
  pub account : RiderAccount

pub data EarningsStatus : Type 0 where
  pending available withdrawn held : EarningsStatus

pub data EarningsType : Type 0 where
  delivery_fee tip bonus referral adjustment : EarningsType

-- riderEarnings.schema.ts
pub record Earning : Type 0 where
  pub rider : ℕ
  pub delivery_request : Option ℕ
  pub type : EarningsType
  pub amount : ℕ
  pub status : EarningsStatus
  pub withdrawn_at : Option ℕ
  pub withdrawal_reference : Option ℕ

-- platformEarning.schema.ts; the commission may be negative.
pub record PlatformEarning : Type 0 where
  pub delivery_request : ℕ
  pub rider : ℕ
  pub customer : ℕ
  pub total_delivery_price : ℕ
  pub rider_payout : ℕ
  pub platform_commission : ℤ
  pub service_fee : ℕ

pub data WithdrawalStatus : Type 0 where
  pending approved rejected : WithdrawalStatus

-- withdrawalRequest.schema.ts
pub record Withdrawal : Type 0 where
  pub rider : ℕ
  pub amount : ℕ
  pub bank_name : ℕ
  pub bank_account_number : ℕ
  pub reference : ℕ
  pub status : WithdrawalStatus
  pub admin_note : Option ℕ
  pub processed_by : Option ℕ
  pub processed_at : Option ℕ

-- pricingConfig.schema.ts: the fields of the active configuration that the payouts and the
-- cancellation fees read. A field that the document lacks is `none`.
pub record PayoutConfig : Type 0 where
  pub rider_commission_percentage : Option ℕ
  pub minimum_rider_payout : Option ℕ
  pub cancellation_fee_before_accept : Option ℕ
  pub cancellation_fee_after_accept : Option ℕ
  pub cancellation_fee_after_pickup_percentage : Option ℕ

-- rating.schema.ts
pub record Rating : Type 0 where
  pub delivery_request : ℕ
  pub customer : ℕ
  pub rider : ℕ
  pub score : ℕ
  pub comment : Option ℕ
  pub is_visible : Bool
  pub created_at : ℕ

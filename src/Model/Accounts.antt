-- ===== src/Model/Accounts.antt =====
-- libs/database/src/schemas/user.schema.ts, rider.schema.ts and refreshToken.schema.ts: what signing
-- in reads and writes. An email or a phone number is the list of its characters; codes and hashes are numbers.
use fastmotion_delivery.Base.{ℕ, Bool, Option, List}

abbrev pub Text : Type 0
Text = List ℕ

pub data Role : Type 0 where
  normal_user bakery admin delivery : Role

pub record User : Type 0 where
  pub type : Role
  pub email : Option Text
  pub phone : Option Text
  pub password_hash : ℕ
  pub is_email_confirmed : Bool
  pub is_phone_confirmed : Bool
  pub email_confirmation_code : Option ℕ
  pub email_confirmation_expiry_date : Option ℕ
  pub phone_confirmation_otp : Option ℕ
  pub phone_confirmation_otp_expiry : Option ℕ
  pub reset_password_otp : Option ℕ
  pub reset_password_otp_expiry : Option ℕ
  pub is_active : Bool
  pub is_social_login : Bool
  pub mobile_notification : Bool

pub record RefreshToken : Type 0 where
  pub token : ℕ
  pub expires_at : ℕ
  pub revoked : Bool
  pub is_active : Bool
  pub user : ℕ

-- The fields of a rider's document for signing in, for the devices and for a suspension.
pub record RiderAccount : Type 0 where
  pub email : Text
  pub phone : Text
  pub password_hash : ℕ
  pub must_change_password : Bool
  pub enforce_device_binding : Bool
  pub bound_device_id : Option ℕ
  pub bound_device_model : Option ℕ
  pub device_bound_at : Option ℕ
  pub is_vehicle_bound : Bool
  pub bound_vehicle_id : Option Text
  pub fcm_token : Option ℕ
  pub reset_password_otp : Option ℕ
  pub reset_password_otp_expiry : Option ℕ
  pub last_login_date : Option ℕ
  pub suspension_reason : Option ℕ
  pub suspended_at : Option ℕ
  pub suspended_by : Option ℕ

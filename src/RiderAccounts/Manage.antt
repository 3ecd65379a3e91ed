-- ===== src/RiderAccounts/Manage.antt =====
-- apps/admin-api/src/rider-management/rider-management.service.ts: an admin creates, verifies,
-- suspends and changes the accounts of riders.
use fastmotion_delivery.Base.{
  ℕ, Bool, true, false, not, ◌&&◌, ◌||◌, Option, none, some, [], ◌∷◌, ◌++◌, ◌==◌, if◌then◌else◌,
  is_some, get_or,
}
use fastmotion_delivery.Base.Int.{pos}
use fastmotion_delivery.Base.Dict.{count}
use fastmotion_delivery.Model.{
  Text, Rider, RiderAccount, RiderStatus, VerificationStatus, Delivery, DeliveryStatus, Handler,
  HttpError, Event, ⊤, gets, require, modify, when, send, update_rider, includes, ◌>>=◌, ◌>>◌,
}
use fastmotion_delivery.Accounts.{text_eq}
use fastmotion_delivery.Rider.{active_statuses, is_rider}
use fastmotion_delivery.RiderAccounts.Lookup.{
  normal_email, find_rider, rider_by_email, rider_by_phone, change_account, known_rider,
}

-- The push of `pushNotifyRider`, whose errors are dropped.
abbrev pub push_notify_rider : ℕ → Rider → Handler ⊤
push_notify_rider id r = when (is_some r.account.fcm_token) (send (Event.push_rider id))

-- The request of `createRider`.
pub record NewRider : Type 0 where
  pub email : Text
  pub phone : Text
  pub enforce_device_binding : Option Bool
  pub max_concurrent_deliveries : Option ℕ

abbrev pub new_account : NewRider → (hash : ℕ) → RiderAccount
new_account body hash = record {
  email = normal_email body.email;
  phone = body.phone;
  password_hash = hash;
  must_change_password = true;
  enforce_device_binding = get_or body.enforce_device_binding true;
  bound_device_id = none;
  bound_device_model = none;
  device_bound_at = none;
  is_vehicle_bound = false;
  bound_vehicle_id = none;
  fcm_token = none;
  reset_password_otp = none;
  reset_password_otp_expiry = none;
  last_login_date = none;
  suspension_reason = none;
  suspended_at = none;
  suspended_by = none;
}

abbrev pub new_rider : NewRider → (hash : ℕ) → Rider
new_rider body hash = record {
  status = RiderStatus.offline;
  verification_status = VerificationStatus.pending;
  is_online = false;
  is_active = true;
  is_suspended = false;
  total_deliveries = 0;
  total_earnings = 0;
  wallet_balance = pos 0;
  bank_name = none;
  bank_account_number = none;
  max_concurrent_deliveries = get_or body.max_concurrent_deliveries 1;
  current_delivery_count = pos 0;
  average_rating = 0;
  total_ratings = 0;
  account = new_account body hash;
}

-- `{ $or: [{ email }, { phone }] }`
abbrev pub is_same_rider : NewRider → ℕ → Rider → Bool
is_same_rider body k r =
    rider_by_email (normal_email body.email) k r || rider_by_phone body.phone k r

-- `createRider`; `hash` is the hash of the password.
unfoldable pub create_rider : NewRider → (hash id : ℕ) → Handler ⊤
create_rider body hash id = do
  o ← gets (λ s. find_rider (is_same_rider body) s.riders)
  require (not (is_some o)) HttpError.conflict
  modify (λ s. record s { riders = s.riders ++ ((id, new_rider body hash) ∷ []) })
  send (Event.rider_welcome id)

-- The request of `updateRider`; an email or a phone number that is given is not empty.
pub record RiderChanges : Type 0 where
  pub email : Option Text
  pub phone : Option Text
  pub enforce_device_binding : Option Bool
  pub is_active : Option Bool
  pub max_concurrent_deliveries : Option ℕ

-- `body.email && body.email !== rider.email`
abbrev pub is_changing : Option Text → (old : Text) → Bool
is_changing none old = false
is_changing (some new) old = not (text_eq new old)

abbrev pub others : (id : ℕ) → (ℕ → Rider → Bool) → ℕ → Rider → Bool
others id p k r = p k r && not (k == id)

abbrev pub with_changes : RiderChanges → Rider → Rider
with_changes body r = record r {
  is_active = get_or body.is_active r.is_active;
  max_concurrent_deliveries = get_or body.max_concurrent_deliveries r.max_concurrent_deliveries;
  account = record r.account {
    email = get_or body.email r.account.email;
    phone = get_or body.phone r.account.phone;
    enforce_device_binding = get_or body.enforce_device_binding r.account.enforce_device_binding;
  };
}

-- The email as `updateRider` stores it.
abbrev pub stored_email : Option Text → (old : Text) → Option Text
stored_email none old = none
stored_email (some new) old = some (if text_eq new old then new else normal_email new)

-- `updateRider`
unfoldable pub update_rider_details : (id : ℕ) → RiderChanges → Handler ⊤
update_rider_details id body = do
  r ← known_rider id
  email ←
      gets (λ s.
        find_rider (others id (rider_by_email (normal_email (get_or body.email [])))) s.riders)
  require (not (is_changing body.email r.account.email && is_some email)) HttpError.conflict
  phone ← gets (λ s. find_rider (others id (rider_by_phone (get_or body.phone []))) s.riders)
  require (not (is_changing body.phone r.account.phone && is_some phone)) HttpError.conflict
  update_rider id (with_changes (record body { email = stored_email body.email r.account.email }))

-- `verifyRider`; the request says `verified` or `rejected`.
unfoldable pub verify_rider : (id : ℕ) (verified : Bool) → Handler ⊤
verify_rider id verified = do
  r ← known_rider id
  update_rider id (λ r. record r {
    verification_status =
        if verified then VerificationStatus.verified else VerificationStatus.rejected;
  })
  push_notify_rider id r

-- The delivery of the rider that stands against a suspension.
abbrev pub keeps_busy : (rider : ℕ) → ℕ → Delivery → Bool
keeps_busy rider _ d =
    is_rider d.rider rider && includes d.status (DeliveryStatus.rider_assigned ∷ active_statuses)

abbrev pub suspended_with : (admin reason now : ℕ) → Rider → Rider
suspended_with admin reason now r = record r {
  is_suspended = true;
  is_online = false;
  status = RiderStatus.offline;
  account = record r.account {
    suspension_reason = some reason;
    suspended_at = some now;
    suspended_by = some admin;
  };
}

-- `suspendRider`
unfoldable pub suspend_rider : (admin id reason now : ℕ) → Handler ⊤
suspend_rider admin id reason now = do
  r ← known_rider id
  active ← gets (λ s. count (keeps_busy id) s.deliveries)
  require (active == 0) HttpError.bad_request
  update_rider id (suspended_with admin reason now)
  push_notify_rider id r

abbrev pub reinstated : Rider → Rider
reinstated r = record r {
  is_suspended = false;
  account = record r.account { suspension_reason = none; suspended_at = none; suspended_by = none };
}

-- `unsuspendRider`
unfoldable pub unsuspend_rider : (id : ℕ) → Handler ⊤
unsuspend_rider id = do r ← known_rider id; update_rider id reinstated; push_notify_rider id r

abbrev pub unbound : RiderAccount → RiderAccount
unbound a = record a { bound_device_id = none; bound_device_model = none; device_bound_at = none }

abbrev pub with_temporary_password : (hash : ℕ) → RiderAccount → RiderAccount
with_temporary_password hash a =
    unbound (record a { password_hash = hash; must_change_password = true })

-- `resetRiderPassword`
unfoldable pub reset_rider_password : (id hash : ℕ) → Handler ⊤
reset_rider_password id hash = do
  r ← known_rider id
  update_rider id (change_account (with_temporary_password hash))

abbrev pub rebound : (device model : Option ℕ) (now : ℕ) → RiderAccount → RiderAccount
rebound none model now a = unbound a
rebound (some d) model now a = record a {
  bound_device_id = some d;
  bound_device_model = model;
  device_bound_at = some now;
}

-- `updateDeviceBinding`: a device to bind, or none to unbind.
unfoldable pub update_device_binding : (id : ℕ) (device model : Option ℕ) (now : ℕ) → Handler ⊤
update_device_binding id device model now = do
  r ← known_rider id
  update_rider id (change_account (rebound device model now))

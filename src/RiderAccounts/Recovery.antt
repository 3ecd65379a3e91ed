-- ===== src/RiderAccounts/Recovery.antt =====
-- apps/delivery-api/src/auth/auth.service.ts: forgotten passwords and signing out.
use fastmotion_delivery.Base.{
  ℕ, false, not, ◌&&◌, Option, none, some, List, [], ◌∷◌, ◌==◌, if◌then◌else◌,
}
use fastmotion_delivery.Model.{
  Text, Rider, RiderAccount, RiderStatus, RefreshToken, Handler, HttpError, ⊤, gets, some_or,
  require, modify, update_rider, ◌>>=◌, ◌>>◌,
}
use fastmotion_delivery.Accounts.{otp_expiry, is_code, is_expired, revoked, revoke_all}
use fastmotion_delivery.RiderAccounts.Lookup.{find_rider, rider_by_contact, change_account}

abbrev pub with_rider_code : (otp now : ℕ) → RiderAccount → RiderAccount
with_rider_code otp now a = record a {
  reset_password_otp = some otp;
  reset_password_otp_expiry = some (otp_expiry now);
}

-- `forgotPassword`; the code is not sent yet.
unfoldable pub forgot_own_password : (contact : Text) (otp now : ℕ) → Handler ⊤
forgot_own_password contact otp now = do
  o ← gets (λ s. find_rider (rider_by_contact contact) s.riders)
  (id, r) ← some_or o HttpError.not_found
  update_rider id (change_account (with_rider_code otp now))

abbrev pub with_new_password : (hash : ℕ) → RiderAccount → RiderAccount
with_new_password hash a = record a {
  password_hash = hash;
  reset_password_otp = none;
  reset_password_otp_expiry = none;
}

-- `resetPassword`; `hash` is the hash of the password.
unfoldable pub reset_own_password :
    (contact : Text) (password confirm code hash now : ℕ) → Handler ⊤
reset_own_password contact password confirm code hash now = do
  require (password == confirm) HttpError.bad_request
  o ← gets (λ s. find_rider (rider_by_contact contact) s.riders)
  (id, r) ← some_or o HttpError.not_found
  require
      (is_code code r.account.reset_password_otp r.account.reset_password_otp_expiry
        && not (is_expired now r.account.reset_password_otp_expiry))
      HttpError.bad_request
  update_rider id (change_account (with_new_password hash))

-- `updateOne({ token, user }, …)`
unfoldable pub revoke_own : (rider token : ℕ) → List RefreshToken → List RefreshToken
revoke_own rider token [] = []
revoke_own rider token (t ∷ ts) =
    if t.token == token && t.user == rider then revoked t ∷ ts else t ∷ revoke_own rider token ts

abbrev pub revoke_tokens : (rider : ℕ) → Option ℕ → List RefreshToken → List RefreshToken
revoke_tokens rider none ts = revoke_all rider ts
revoke_tokens rider (some token) ts = revoke_own rider token ts

abbrev pub signed_out : Rider → Rider
signed_out r = record r {
  is_online = false;
  status = RiderStatus.offline;
  account = record r.account { fcm_token = none };
}

-- `logout`
unfoldable pub rider_logout : (id : ℕ) → Option ℕ → Handler ⊤
rider_logout id token = do
  modify (λ s. record s { refresh_tokens = revoke_tokens id token s.refresh_tokens })
  update_rider id signed_out

-- ===== src/Accounts/SignUp.antt =====
-- apps/user-api/src/auth/auth.service.ts: registration and the codes that confirm a contact.
use fastmotion_delivery.Base.{
  ℕ, ◌+◌, Bool, true, false, not, ◌&&◌, Option, none, some, [], ◌∷◌, ◌++◌, ◌==◌, ltb, is_some,
}
use fastmotion_delivery.Base.Dict.{Dict}
use fastmotion_delivery.Model.{
  Text, Role, User, Handler, HttpError, Event, ⊤, gets, some_or, require, modify, send, ◌>>=◌, ◌>>◌,
}
use fastmotion_delivery.Accounts.Contact.{phone_formatter, find_user, by_email, by_phone}
use fastmotion_delivery.Accounts.Tokens.{generate_refresh_token, update_user}

-- The expiry of `GenerateOtp`: 3 minutes are 180,000 milliseconds.
abbrev pub otp_expiry : (now : ℕ) → ℕ
otp_expiry now = now + 180_000

abbrev pub new_user : (email phone : Text) (hash otp now : ℕ) → User
new_user email phone hash otp now = record {
  type = Role.normal_user;
  email = some email;
  phone = some phone;
  password_hash = hash;
  is_email_confirmed = false;
  is_phone_confirmed = false;
  email_confirmation_code = some otp;
  email_confirmation_expiry_date = some (otp_expiry now);
  phone_confirmation_otp = none;
  phone_confirmation_otp_expiry = none;
  reset_password_otp = none;
  reset_password_otp_expiry = none;
  is_active = true;
  is_social_login = false;
  mobile_notification = true;
}

abbrev pub is_taken : (User → Bool) → Dict User → Bool
is_taken p us = is_some (find_user p us)

abbrev pub create_user : (id : ℕ) → User → Handler ⊤
create_user id u = modify λ s. record s { users = s.users ++ ((id, u) ∷ []) }

-- `registerUser`; `hash` is the hash of the password, `otp` the code and `id` the id of the user.
unfoldable pub register_user :
    (email phone : Text) (password confirm hash otp id now : ℕ) → Handler ⊤
register_user email phone password confirm hash otp id now = do
  require (password == confirm) HttpError.bad_request
  same_email ← gets (λ s. is_taken (by_email email) s.users)
  require (not same_email) HttpError.conflict
  same_phone ← gets (λ s. is_taken (by_phone (phone_formatter phone)) s.users)
  require (not same_phone) HttpError.conflict
  create_user id (new_user email (phone_formatter phone) hash otp now)
  send (Event.user_registered id otp)

-- `!code || !expiry || code !== given`, negated
abbrev pub is_code : (given : ℕ) (code expiry : Option ℕ) → Bool
is_code given none expiry = false
is_code given (some c) none = false
is_code given (some c) (some e) = c == given

abbrev pub is_expired : (now : ℕ) → Option ℕ → Bool
is_expired now none = false
is_expired now (some e) = ltb e now

abbrev pub email_pending : Text → User → Bool
email_pending email u = by_email email u && not u.is_email_confirmed

abbrev pub phone_pending : Text → User → Bool
phone_pending phone u = by_phone (phone_formatter phone) u && not u.is_phone_confirmed

abbrev pub email_confirmed : User → User
email_confirmed u = record u {
  is_email_confirmed = true;
  email_confirmation_code = none;
  email_confirmation_expiry_date = none;
}

abbrev pub phone_confirmed : User → User
phone_confirmed u = record u {
  is_phone_confirmed = true;
  phone_confirmation_otp = none;
  phone_confirmation_otp_expiry = none;
}

-- `verifyEmailOtp`
unfoldable pub verify_email_otp : (email : Text) (code fresh now : ℕ) → Handler ℕ
verify_email_otp email code fresh now = do
  o ← gets (λ s. find_user (email_pending email) s.users)
  (id, u) ← some_or o HttpError.not_found
  require (is_code code u.email_confirmation_code u.email_confirmation_expiry_date)
      HttpError.bad_request
  require (not (is_expired now u.email_confirmation_expiry_date)) HttpError.bad_request
  update_user id email_confirmed
  generate_refresh_token id fresh now

-- `verifyPhoneOtp`
unfoldable pub verify_phone_otp : (phone : Text) (code fresh now : ℕ) → Handler ℕ
verify_phone_otp phone code fresh now = do
  o ← gets (λ s. find_user (phone_pending phone) s.users)
  (id, u) ← some_or o HttpError.not_found
  require (is_code code u.phone_confirmation_otp u.phone_confirmation_otp_expiry)
      HttpError.bad_request
  require (not (is_expired now u.phone_confirmation_otp_expiry)) HttpError.bad_request
  update_user id phone_confirmed
  generate_refresh_token id fresh now

abbrev pub with_email_code : (otp now : ℕ) → User → User
with_email_code otp now u = record u {
  email_confirmation_code = some otp;
  email_confirmation_expiry_date = some (otp_expiry now);
}

abbrev pub with_phone_code : (otp now : ℕ) → User → User
with_phone_code otp now u = record u {
  phone_confirmation_otp = some otp;
  phone_confirmation_otp_expiry = some (otp_expiry now);
}

abbrev pub with_reset_code : (otp now : ℕ) → User → User
with_reset_code otp now u = record u {
  reset_password_otp = some otp;
  reset_password_otp_expiry = some (otp_expiry now);
}

-- `resendEmailOtp`
unfoldable pub resend_email_otp : (email : Text) (otp now : ℕ) → Handler ⊤
resend_email_otp email otp now = do
  o ← gets (λ s. find_user (email_pending email) s.users)
  (id, u) ← some_or o HttpError.not_found
  update_user id (with_email_code otp now)
  send (Event.verification_requested id otp)

-- `resendPhoneOtp`
unfoldable pub resend_phone_otp : (phone : Text) (otp now : ℕ) → Handler ⊤
resend_phone_otp phone otp now = do
  o ← gets (λ s. find_user (phone_pending phone) s.users)
  (id, u) ← some_or o HttpError.not_found
  update_user id (with_phone_code otp now)

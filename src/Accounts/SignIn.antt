-- ===== src/Accounts/SignIn.antt =====
-- apps/user-api/src/auth/auth.service.ts: signing in by password and by Google, and new passwords.
use fastmotion_delivery.Base.{
  ℕ, Bool, true, false, not, ◌&&◌, ◌||◌, Option, none, some, ◌==◌, ltb, is_some, if◌then◌else◌,
}
use fastmotion_delivery.Model.{
  Text, Role, User, Handler, HttpError, Event, ⊤, pure, gets, some_or, require, when, send, ◌>>=◌,
  ◌>>◌,
}
use fastmotion_delivery.Accounts.Contact.{is_phone, find_user, by_email, by_contact}
use fastmotion_delivery.Accounts.Tokens.{generate_refresh_token, update_user}
use fastmotion_delivery.Accounts.SignUp.{
  create_user, is_code, is_expired, email_pending, with_email_code, with_reset_code,
}

-- The fields of the reset code are declared `select: false`: `findOne` leaves them out.
abbrev pub without_reset_code : User → User
without_reset_code u = record u { reset_password_otp = none; reset_password_otp_expiry = none }

-- What a login answers: a code was sent, a refresh token, or nothing.
pub data LoginAnswer : Type 0 where
  code_sent : LoginAnswer
  signed_in : (token : ℕ) → LoginAnswer
  no_answer : LoginAnswer

abbrev pub is_normal : Role → Bool
is_normal Role.normal_user = true
is_normal _ = false

-- `login`
unfoldable pub login : (id : ℕ) → User → (otp fresh now : ℕ) → Handler LoginAnswer
login id u otp fresh now s =
    if u.is_email_confirmed || u.is_phone_confirmed
    then (do
      token ← generate_refresh_token id fresh now
      pure (if is_normal u.type then LoginAnswer.signed_in token else LoginAnswer.no_answer))
        s
    else if is_some u.email
    then (do
      update_user id (with_email_code otp now)
      send (Event.verification_requested id otp)
      pure LoginAnswer.code_sent)
        s
    else pure LoginAnswer.no_answer s

-- `bcrypt.compare`
module _ (matches : (password hash : ℕ) → Bool) where
  -- `verifyUser`
  unfoldable pub verify_user : (contact : Text) (password : ℕ) → Handler (ℕ × User)
  verify_user contact password = do
    o ← gets (λ s. find_user (by_contact contact) s.users)
    (id, u) ← some_or o HttpError.unauthorized
    require u.is_active HttpError.unauthorized
    require (matches password u.password_hash) HttpError.unauthorized
    pure (id, u)

  -- A request to sign in: the check of the local strategy, and `login`.
  unfoldable pub sign_in : (contact : Text) (password otp fresh now : ℕ) → Handler LoginAnswer
  sign_in contact password otp fresh now = do
    (id, u) ← verify_user contact password
    login id u otp fresh now

-- `forgotPassword`; a code by SMS is not sent yet.
unfoldable pub forgot_password : (contact : Text) (otp now : ℕ) → Handler ⊤
forgot_password contact otp now = do
  o ← gets (λ s. find_user (by_contact contact) s.users)
  (id, u) ← some_or o HttpError.not_found
  update_user id (with_reset_code otp now)
  when (not (is_phone contact)) (send (Event.reset_requested id otp))

abbrev pub with_password : (hash : ℕ) → User → User
with_password hash u = record u {
  password_hash = hash;
  reset_password_otp = none;
  reset_password_otp_expiry = none;
}

-- `resetPassword`
unfoldable pub reset_password : (contact : Text) (code hash now : ℕ) → Handler ⊤
reset_password contact code hash now = do
  o ← gets (λ s. find_user (by_contact contact) s.users)
  (id, stored) ← some_or o HttpError.not_found
  let u = without_reset_code stored
  require
      (is_code code u.reset_password_otp u.reset_password_otp_expiry
        && not (is_expired now u.reset_password_otp_expiry))
      HttpError.bad_request
  update_user id (with_password hash)

-- What a token of `verifyUserOtp` says.
pub record Verification : Type 0 where
  pub email : Text
  pub expiry : ℕ
  pub type : Role

abbrev pub email_verified : User → User
email_verified u = record u { is_email_confirmed = true }

abbrev pub has_code : (given : ℕ) → Option ℕ → Bool
has_code given none = false
has_code given (some c) = c == given

-- `verifyUserOtp`; `decoded` is what the token says, if it is valid. All errors are `Unauthorized`.
unfoldable pub verify_user_otp :
    (decoded : Option Verification) (code fresh now : ℕ) → Handler (Option ℕ)
verify_user_otp decoded code fresh now = do
  v ← some_or decoded HttpError.unauthorized
  require (not (ltb v.expiry now)) HttpError.unauthorized
  o ← gets (λ s. find_user (email_pending v.email) s.users)
  elim o [
    | none ↦ pure none
    | some (id, u) ↦ do
      require (has_code code u.email_confirmation_code) HttpError.unauthorized
      (if is_normal v.type
          then (do
            token ← generate_refresh_token id fresh now
            update_user id email_verified
            pure (some token))
          else pure none)
  ]

abbrev pub social : User → User
social u = record u { is_social_login = true }

abbrev pub new_google_user : (email : Text) (hash : ℕ) → User
new_google_user email hash = record {
  type = Role.normal_user;
  email = some email;
  phone = none;
  password_hash = hash;
  is_email_confirmed = true;
  is_phone_confirmed = false;
  email_confirmation_code = none;
  email_confirmation_expiry_date = none;
  phone_confirmation_otp = none;
  phone_confirmation_otp_expiry = none;
  reset_password_otp = none;
  reset_password_otp_expiry = none;
  is_active = true;
  is_social_login = true;
  mobile_notification = true;
}

-- The end of `googleSignUp`, for an email that nobody has.
unfoldable pub google_account : (email : Text) (hash id fresh now : ℕ) → Handler ℕ
google_account email hash id fresh now = do
  create_user id (new_google_user email hash)
  token ← generate_refresh_token id fresh now
  send (Event.user_welcome id)
  pure token

-- `googleSignIn`, which `googleSignUp` comes to as well; `email` is that of the token, if it is valid.
unfoldable pub google_sign_in : (email : Option Text) (hash id fresh now : ℕ) → Handler ℕ
google_sign_in email hash id fresh now = do
  e ← some_or email HttpError.unauthorized
  o ← gets (λ s. find_user (by_email e) s.users)
  elim o [
    | some (k, u) ↦ do
      when (not u.is_social_login) (update_user k social)
      generate_refresh_token k fresh now
    | none ↦ google_account e hash id fresh now
  ]

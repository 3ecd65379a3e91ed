-- ===== src/Accounts/Request.antt =====
-- apps/user-api/src/auth/auth.controller.ts: the requests that write, and sequences of them.
use fastmotion_delivery.Base.{ℕ, Bool, Option, List, [], ◌∷◌}
use fastmotion_delivery.Model.{Db, Text}
use fastmotion_delivery.Accounts.Tokens.{logout}
use fastmotion_delivery.Accounts.SignUp.{
  register_user, verify_email_otp, verify_phone_otp, resend_email_otp, resend_phone_otp,
}
use fastmotion_delivery.Accounts.SignIn.{
  sign_in, forgot_password, reset_password, Verification, verify_user_otp, google_sign_in,
}

pub data AccountRequest : Type 0 where
  register : (email phone : Text) (password confirm hash otp id now : ℕ) → AccountRequest
  email_code : (email : Text) (code fresh now : ℕ) → AccountRequest
  phone_code : (phone : Text) (code fresh now : ℕ) → AccountRequest
  resend_email : (email : Text) (otp now : ℕ) → AccountRequest
  resend_phone : (phone : Text) (otp now : ℕ) → AccountRequest
  sign : (contact : Text) (password otp fresh now : ℕ) → AccountRequest
  forgot : (contact : Text) (otp now : ℕ) → AccountRequest
  reset : (contact : Text) (code hash now : ℕ) → AccountRequest
  user_code : (decoded : Option Verification) (code fresh now : ℕ) → AccountRequest
  google : (email : Option Text) (hash id fresh now : ℕ) → AccountRequest
  leave : (user : ℕ) (token : Option ℕ) → AccountRequest

-- The state after a request, whether it succeeds or not; `matches` is `bcrypt.compare`.
module _ (matches : (password hash : ℕ) → Bool) where
  unfoldable pub serve_account : AccountRequest → Db → Db
  serve_account (AccountRequest.register email phone password confirm hash otp id now) s =
      (register_user email phone password confirm hash otp id now s).1
  serve_account (AccountRequest.email_code email code fresh now) s =
      (verify_email_otp email code fresh now s).1
  serve_account (AccountRequest.phone_code phone code fresh now) s =
      (verify_phone_otp phone code fresh now s).1
  serve_account (AccountRequest.resend_email email otp now) s = (resend_email_otp email otp now s).1
  serve_account (AccountRequest.resend_phone phone otp now) s = (resend_phone_otp phone otp now s).1
  serve_account (AccountRequest.sign contact password otp fresh now) s =
      (sign_in matches contact password otp fresh now s).1
  serve_account (AccountRequest.forgot contact otp now) s = (forgot_password contact otp now s).1
  serve_account (AccountRequest.reset contact code hash now) s =
      (reset_password contact code hash now s).1
  serve_account (AccountRequest.user_code decoded code fresh now) s =
      (verify_user_otp decoded code fresh now s).1
  serve_account (AccountRequest.google email hash id fresh now) s =
      (google_sign_in email hash id fresh now s).1
  serve_account (AccountRequest.leave user token) s = (logout user token s).1

  unfoldable pub serve_accounts : List AccountRequest → Db → Db
  serve_accounts [] s = s
  serve_accounts (q ∷ qs) s = serve_accounts qs (serve_account q s)

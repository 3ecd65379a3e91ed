-- ===== src/RiderAccounts/SignIn.antt =====
-- apps/delivery-api/src/auth/auth.service.ts: signing in, the first password, and devices.
use fastmotion_delivery.Base.{
  ℕ, Bool, true, false, not, ◌&&◌, Option, none, some, [], ◌∷◌, ◌++◌, ◌==◌, ltb, if◌then◌else◌,
  is_some,
}
use fastmotion_delivery.Model.{
  Text, Rider, RiderAccount, RefreshToken, Handler, HttpError, ⊤, pure, gets, some_or, require,
  modify, update_rider, ◌>>=◌, ◌>>◌,
}
use fastmotion_delivery.Accounts.{find_token, revoke_all, new_token, is_live}
use fastmotion_delivery.RiderAccounts.Lookup.{
  find_rider, rider_by_contact, change_account, same_letter,
}

-- `{ user, revoked: false, isActive: true, expiresAt: { $gt: now } }`
abbrev pub is_valid : (rider now : ℕ) → RefreshToken → Bool
is_valid rider now t = is_live rider t && ltb now t.expires_at

-- The end of `generateRefreshToken`, for the token that its query found.
abbrev pub token_given : (rider fresh now : ℕ) → Option RefreshToken → Handler ℕ
token_given rider fresh now (some t) = pure t.token
token_given rider fresh now none = do
  modify (λ s. record s { refresh_tokens = s.refresh_tokens ++ (new_token rider fresh now ∷ []) })
  pure fresh

-- `generateRefreshToken`; `fresh` is the text of a new token.
unfoldable pub generate_rider_token : (rider fresh now : ℕ) → Handler ℕ
generate_rider_token rider fresh now = do
  modify (λ s. record s { refresh_tokens = revoke_all rider s.refresh_tokens })
  o ← gets (λ s. find_token (is_valid rider now) s.refresh_tokens)
  token_given rider fresh now o

-- What a login answers: that the password has to be changed, or a session. The flag tells the app
-- to bind its device.
pub data RiderAnswer : Type 0 where
  must_change : RiderAnswer
  session : (token : ℕ) (requires_device : Bool) → RiderAnswer

abbrev pub is_session : RiderAnswer → Bool
is_session RiderAnswer.must_change = false
is_session (RiderAnswer.session token requires_device) = true

abbrev pub or_kept : Option ℕ → Option ℕ → Option ℕ
or_kept none old = old
or_kept (some x) old = some x

abbrev pub logged_in : (fcm : Option ℕ) (now : ℕ) → RiderAccount → RiderAccount
logged_in fcm now a = record a { last_login_date = some now; fcm_token = or_kept fcm a.fcm_token }

-- `deviceId !== boundDeviceId`, negated
abbrev pub is_device : (given : Option ℕ) (bound : ℕ) → Bool
is_device none bound = false
is_device (some d) bound = d == bound

-- The fourth step of `login`.
abbrev pub require_device : (given : Option ℕ) → RiderAccount → Handler ⊤
require_device given a = elim a.bound_device_id [
  | none ↦ pure tt
  | some bound ↦
      if a.enforce_device_binding
      then (do
        require (is_some given) HttpError.bad_request
        require (is_device given bound) HttpError.forbidden)
      else pure tt
]

-- The fifth and sixth step of `login`.
abbrev pub open_session : (id : ℕ) → Rider → (fcm : Option ℕ) (fresh now : ℕ) → Handler RiderAnswer
open_session id r fcm fresh now = do
  token ← generate_rider_token id fresh now
  update_rider id (change_account (logged_in fcm now))
  pure (
      RiderAnswer.session token
        (r.account.enforce_device_binding && not (is_some r.account.bound_device_id)))

-- `login`
unfoldable pub rider_login :
    (id : ℕ) → Rider → (device fcm : Option ℕ) (fresh now : ℕ) → Handler RiderAnswer
rider_login id r device fcm fresh now = do
  require r.is_active HttpError.forbidden
  require (not r.is_suspended) HttpError.forbidden
  (if r.account.must_change_password
      then pure RiderAnswer.must_change
      else require_device device r.account >> open_session id r fcm fresh now)

-- `bcrypt.compare`
module _ (matches : (password hash : ℕ) → Bool) where
  -- `verifyRider`; the local strategy throws where it finds nobody.
  unfoldable pub verify_rider_password : (contact : Text) (password : ℕ) → Handler (ℕ × Rider)
  verify_rider_password contact password = do
    o ← gets (λ s. find_rider (rider_by_contact contact) s.riders)
    (id, r) ← some_or o HttpError.unauthorized
    require r.is_active HttpError.unauthorized
    require (matches password r.account.password_hash) HttpError.unauthorized
    pure (id, r)

  -- A request to sign in: the check of the local strategy, and `login`.
  unfoldable pub rider_sign_in :
      (contact : Text) (password : ℕ) (device fcm : Option ℕ) (fresh now : ℕ) → Handler RiderAnswer
  rider_sign_in contact password device fcm fresh now = do
    (id, r) ← verify_rider_password contact password
    rider_login id r device fcm fresh now

unfoldable pub same_text : Text → Text → Bool
same_text [] [] = true
same_text [] (d ∷ t) = false
same_text (c ∷ s) [] = false
same_text (c ∷ s) (d ∷ t) = same_letter c d && same_text s t

-- `verifyBike`
unfoldable pub verify_bike : Rider → (bike : Text) → Handler Text
verify_bike r bike = do
  require r.account.is_vehicle_bound HttpError.bad_request
  bound ← some_or r.account.bound_vehicle_id HttpError.bad_request
  require (same_text bike bound) HttpError.bad_request
  pure bound

-- The device of `changePassword`, where the request names one.
abbrev pub with_device : (device model : Option ℕ) (now : ℕ) → RiderAccount → RiderAccount
with_device none model now a = a
with_device (some d) model now a = record a {
  bound_device_id = some d;
  bound_device_model = model;
  device_bound_at = some now;
}

abbrev pub with_first_password :
    (hash : ℕ) (device model fcm : Option ℕ) (now : ℕ) → RiderAccount → RiderAccount
with_first_password hash device model fcm now a = with_device device model now (record a {
  password_hash = hash;
  must_change_password = false;
  fcm_token = or_kept fcm a.fcm_token;
})

abbrev pub seen : (now : ℕ) → RiderAccount → RiderAccount
seen now a = record a { last_login_date = some now }

-- `changePassword`; `hash` is the hash of the new password.
unfoldable pub change_password :
    (id : ℕ)
    → Rider
    → (password confirm hash : ℕ) (device model fcm : Option ℕ) (fresh now : ℕ) → Handler ℕ
change_password id r password confirm hash device model fcm fresh now = do
  require (password == confirm) HttpError.bad_request
  require r.account.must_change_password HttpError.bad_request
  update_rider id (change_account (with_first_password hash device model fcm now))
  token ← generate_rider_token id fresh now
  update_rider id (change_account (seen now))
  pure token

abbrev pub has_device : (device : ℕ) → RiderAccount → Bool
has_device device a = is_device a.bound_device_id device

-- The riders but this one who have the device.
abbrev pub holds_device : (id device : ℕ) → ℕ → Rider → Bool
holds_device id device k r = not (k == id) && has_device device r.account

-- `bindDevice`
unfoldable pub bind_device :
    (id : ℕ) → Rider → (device : ℕ) (model : Option ℕ) (now : ℕ) → Handler ⊤
bind_device id r device model now = do
  require (not (is_some r.account.bound_device_id)) HttpError.forbidden
  o ← gets (λ s. find_rider (holds_device id device) s.riders)
  require (not (is_some o)) HttpError.forbidden
  update_rider id (change_account (with_device (some device) model now))

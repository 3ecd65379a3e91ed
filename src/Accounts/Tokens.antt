-- ===== src/Accounts/Tokens.antt =====
-- apps/user-api/src/auth: generateRefreshToken and logout of auth.service.ts, and
-- repository/refreshToken.repository.ts.
use fastmotion_delivery.Base.{
  ℕ, ◌+◌, Bool, true, false, not, ◌&&◌, Option, none, some, List, [], ◌∷◌, ◌++◌, ◌==◌, ltb,
  if◌then◌else◌, is_some,
}
use fastmotion_delivery.Base.Dict.{update}
use fastmotion_delivery.Model.{
  User, RefreshToken, Handler, HttpError, ⊤, pure, gets, require, modify, ◌>>=◌, ◌>>◌,
}

-- `{ user, revoked: false, isActive: true }`
abbrev pub is_live : (user : ℕ) → RefreshToken → Bool
is_live user t = t.user == user && (not t.revoked && t.is_active)

unfoldable pub find_token : (RefreshToken → Bool) → List RefreshToken → Option RefreshToken
find_token p [] = none
find_token p (t ∷ ts) = if p t then some t else find_token p ts

abbrev pub revoked : RefreshToken → RefreshToken
revoked t = record t { revoked = true; is_active = false }

-- `revokeAllUserTokens`
unfoldable pub revoke_all : (user : ℕ) → List RefreshToken → List RefreshToken
revoke_all user [] = []
revoke_all user (t ∷ ts) =
    (if t.user == user && not t.revoked then revoked t else t) ∷ revoke_all user ts

-- `revokeToken`: the first one of this text, whoever's it is.
unfoldable pub revoke_one : (token : ℕ) → List RefreshToken → List RefreshToken
revoke_one token [] = []
revoke_one token (t ∷ ts) = if t.token == token then revoked t ∷ ts else t ∷ revoke_one token ts

-- 7 days are 604,800,000 milliseconds.
abbrev pub new_token : (user fresh now : ℕ) → RefreshToken
new_token user fresh now = record {
  token = fresh;
  expires_at = now + 604_800_000;
  revoked = false;
  is_active = true;
  user = user;
}

-- The live token of the user, if it has not expired.
abbrev pub usable : (now : ℕ) → Option RefreshToken → Option ℕ
usable now none = none
usable now (some t) = if ltb now t.expires_at then some t.token else none

-- `generateRefreshToken`; `fresh` is the text of a new token.
unfoldable pub generate_refresh_token : (user fresh now : ℕ) → Handler ℕ
generate_refresh_token user fresh now s =
    elim (usable now (find_token (is_live user) s.refresh_tokens)) [
      | some token ↦ pure token s
      | none ↦
          (modify (λ t. record t {
            refresh_tokens = revoke_all user t.refresh_tokens ++ (new_token user fresh now ∷ []);
          })
              >> pure fresh)
            s
    ]

abbrev pub update_user : ℕ → (User → User) → Handler ⊤
update_user k f = modify λ s. record s { users = update k f s.users }

abbrev pub muted : User → User
muted u = record u { mobile_notification = false }

-- The revocation of `logout`: of one token, or of all of the user's.
unfoldable pub revoke : (user : ℕ) → Option ℕ → Handler ⊤
revoke user none = modify λ s. record s { refresh_tokens = revoke_all user s.refresh_tokens }
revoke user (some token) = do
  o ← gets (λ s. find_token (λ t. t.token == token) s.refresh_tokens)
  modify (λ s. record s { refresh_tokens = revoke_one token s.refresh_tokens })
  require (is_some o) HttpError.not_found

-- `logout`
unfoldable pub logout : (user : ℕ) → Option ℕ → Handler ⊤
logout user token = do revoke user token; update_user user muted

-- ===== src/RiderAccounts/Sessions.antt =====
-- The one refresh token of a rider who signs in.
use fastmotion_delivery.Base.{
  All, true, ◌≢◌, ◌⊎◌, inl, inr, Bool-cases, ◌==◌, ℕ, ◌≡◌, refl, ap, none, List, [], ◌∷◌, ◌++◌,
  arith,
}
use fastmotion_delivery.Model.{Db, RefreshToken, ok}
use fastmotion_delivery.Accounts.{find_token, revoke_all, new_token}
use fastmotion_delivery.Accounts.Sessions.{live, live-append, live-revoke_all_self}
use fastmotion_delivery.RiderAccounts.SignIn.{generate_rider_token, is_valid, token_given}

none_valid :
    (rider now : ℕ) (ts : List RefreshToken)
    → find_token (is_valid rider now) (revoke_all rider ts) ≡ none
unfolding find_token revoke_all
none_valid rider now [] = refl
none_valid rider now (t ∷ ts) = ground (arith, none_valid rider now ts)

-- The collection after a token was generated.
abbrev pub renewed : (rider fresh now : ℕ) → Db → Db
renewed rider fresh now s = record s {
  refresh_tokens = revoke_all rider s.refresh_tokens ++ (new_token rider fresh now ∷ []);
}

-- No token is ever found to be still valid: a new one is made, after all others of the rider are
-- revoked.
pub generate_lem :
    (rider fresh now : ℕ) (s : Db)
    → generate_rider_token rider fresh now s ≡ (ok fresh, renewed rider fresh now s)
unfolding generate_rider_token
generate_lem rider fresh now s =
    ap
      (λ o.
        token_given rider fresh now o
          (record s { refresh_tokens = revoke_all rider s.refresh_tokens }))
      (none_valid rider now s.refresh_tokens)

-- After the revocation each token of the rider is revoked.
pub revoke_all_lem :
    (rider : ℕ) (ts : List RefreshToken)
    → All (λ t. (t.user ≢ rider) ⊎ (t.revoked ≡ true)) (revoke_all rider ts)
unfolding revoke_all
revoke_all_lem rider [] = tt
revoke_all_lem rider (t ∷ ts) = (
  elim (Bool-cases (t.user == rider)) [ inl e ↦ inr (ground arith) | inr e ↦ inl (ground arith) ],
  revoke_all_lem rider ts,
)

-- A rider has one live token, whatever there was before.
pub renewed-live :
    (rider fresh now : ℕ) (s : Db) → live rider (renewed rider fresh now s).refresh_tokens ≡ 1
renewed-live rider fresh now s = ground (
  arith,
  live-append rider (revoke_all rider s.refresh_tokens) (new_token rider fresh now),
  live-revoke_all_self rider s.refresh_tokens,
)

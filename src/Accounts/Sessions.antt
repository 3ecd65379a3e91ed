-- ===== src/Accounts/Sessions.antt =====
-- The refresh tokens of a user.
use fastmotion_delivery.Base.{
  ℕ, ◌+◌, ◌≤◌, ◌≡◌, ◌⊎◌, inl, inr, refl, sym, subst, Option, none, some, List, [], ◌∷◌, ◌++◌, arith,
  Option-cases, if◌then◌else◌,
}
use fastmotion_delivery.Model.{Db, RefreshToken}
use fastmotion_delivery.Accounts.Tokens.{
  is_live, find_token, revoke_all, revoke_one, new_token, usable, generate_refresh_token, revoke,
  logout,
}

-- The number of live tokens of a user.
unfoldable pub live : (user : ℕ) → List RefreshToken → ℕ
live user [] = 0
live user (t ∷ ts) = (if is_live user t then 1 else 0) + live user ts

-- No user has two live tokens.
abbrev pub IsSingle : List RefreshToken → Type 0
IsSingle ts = (user : ℕ) → live user ts ≤ 1

pub live-append :
    (user : ℕ) (ts : List RefreshToken) (t : RefreshToken)
    → live user (ts ++ (t ∷ [])) ≡ live user ts + (if is_live user t then 1 else 0)
unfolding live
live-append user [] t = omega arith
live-append user (x ∷ ts) t = omega (arith, live-append user ts t)

live-revoke_all-le : (k user : ℕ) (ts : List RefreshToken) → live k (revoke_all user ts) ≤ live k ts
unfolding live revoke_all
live-revoke_all-le k user [] = omega arith
live-revoke_all-le k user (t ∷ ts) = ground (arith, live-revoke_all-le k user ts)

pub live-revoke_all_self : (user : ℕ) (ts : List RefreshToken) → live user (revoke_all user ts) ≡ 0
unfolding live revoke_all
live-revoke_all_self user [] = refl
live-revoke_all_self user (t ∷ ts) = ground (arith, live-revoke_all_self user ts)

live-revoke_one-le :
    (k token : ℕ) (ts : List RefreshToken) → live k (revoke_one token ts) ≤ live k ts
unfolding live revoke_one
live-revoke_one-le k token [] = omega arith
live-revoke_one-le k token (t ∷ ts) = ground (arith, live-revoke_one-le k token ts)

-- What the generation of a token does with the tokens.
generate-cases :
    (user fresh now : ℕ) (s : Db)
    → let t = (generate_refresh_token user fresh now s).1 in
      (t.refresh_tokens ≡ s.refresh_tokens)
      ⊎ (t.refresh_tokens ≡ revoke_all user s.refresh_tokens ++ (new_token user fresh now ∷ []))
unfolding generate_refresh_token
generate-cases user fresh now s =
    elim (Option-cases (usable now (find_token (is_live user) s.refresh_tokens))) [
      | inl e ↦ inr (ground arith)
      | inr (t, e) ↦ inl (ground arith)
    ]

renewed-IsSingle :
    (user fresh now : ℕ) (ts : List RefreshToken)
    → IsSingle ts
    → IsSingle (revoke_all user ts ++ (new_token user fresh now ∷ []))
renewed-IsSingle user fresh now ts h k = ground (
  arith,
  h k,
  live-append k (revoke_all user ts) (new_token user fresh now),
  live-revoke_all-le k user ts,
  live-revoke_all_self user ts,
)

pub generate-IsSingle :
    (user fresh now : ℕ) (s : Db)
    → IsSingle s.refresh_tokens
    → IsSingle (generate_refresh_token user fresh now s).1.refresh_tokens
generate-IsSingle user fresh now s h = elim (generate-cases user fresh now s) [
  | inl e ↦ subst IsSingle (sym e) h
  | inr e ↦ subst IsSingle (sym e) (renewed-IsSingle user fresh now s.refresh_tokens h)
]

pub logout-IsSingle :
    (user : ℕ) (token : Option ℕ) (s : Db)
    → IsSingle s.refresh_tokens
    → IsSingle (logout user token s).1.refresh_tokens
unfolding logout revoke
logout-IsSingle user none s h k = omega (arith, h k, live-revoke_all-le k user s.refresh_tokens)
logout-IsSingle user (some token) s h k =
    ground (arith, h k, live-revoke_one-le k token s.refresh_tokens)

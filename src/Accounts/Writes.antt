-- ===== src/Accounts/Writes.antt =====
-- What each request does with the users and the tokens.
use fastmotion_delivery.Base.{
  ℕ, ◌≡◌, inl, inr, refl, sym, ap, subst, ◌∙◌, not, ◌&&◌, none, some, [], ◌∷◌, ◌++◌, arith, ◌==◌,
  Bool-cases, Option-cases,
}
use fastmotion_delivery.Base.Dict.{update}
use fastmotion_delivery.Model.{Db, Text, User}
use fastmotion_delivery.Accounts.Contact.{find_user, by_email, by_phone, phone_formatter}
use fastmotion_delivery.Accounts.Tokens.{generate_refresh_token}
use fastmotion_delivery.Accounts.SignUp.{
  register_user, new_user, verify_email_otp, verify_phone_otp, phone_pending, email_confirmed,
  phone_confirmed, is_code, is_expired,
}
use fastmotion_delivery.Accounts.Sessions.{IsSingle, generate-IsSingle}
use fastmotion_delivery.Accounts.Codes.{generate-users, verify_email-cases}

-- The users stay, one is changed but for the email, or one with a new email is added; and if no user
-- had two live tokens, none has.
pub data Wrote (s t : Db) : Type 0 where
  kept : t.users ≡ s.users → (IsSingle s.refresh_tokens → IsSingle t.refresh_tokens) → Wrote s t
  changed :
      (k : ℕ) (f : User → User)
      → ((u : User) → (f u).email ≡ u.email)
      → t.users ≡ update k f s.users
      → (IsSingle s.refresh_tokens → IsSingle t.refresh_tokens)
      → Wrote s t
  added :
      (k : ℕ) (u : User) (e : Text)
      → u.email ≡ some e
      → find_user (by_email e) s.users ≡ none
      → t.users ≡ s.users ++ ((k, u) ∷ [])
      → (IsSingle s.refresh_tokens → IsSingle t.refresh_tokens)
      → Wrote s t

-- Nothing is written.
pub unchanged : {s t : Db} → t ≡ s → Wrote s t
unchanged e =
    Wrote.kept (ap (λ x. x.users) e) (λ h. subst (λ x. IsSingle x.refresh_tokens) (sym e) h)

-- A user is changed and a token is generated.
pub generated :
    (k fresh now : ℕ) (f : User → User) (s : Db) {t : Db}
    → ((u : User) → (f u).email ≡ u.email)
    → t ≡ (generate_refresh_token k fresh now (record s { users = update k f s.users })).1
    → Wrote s t
generated k fresh now f s keep e =
    let s' = record s { users = update k f s.users } in
    Wrote.changed k f keep (ap (λ x. x.users) e ∙ generate-users k fresh now s')
      (λ h. subst (λ x. IsSingle x.refresh_tokens) (sym e) (generate-IsSingle k fresh now s' h))

pub signed_in_lem :
    (k fresh now : ℕ) (s : Db) {t : Db} → t ≡ (generate_refresh_token k fresh now s).1 → Wrote s t
signed_in_lem k fresh now s e =
    Wrote.kept (ap (λ x. x.users) e ∙ generate-users k fresh now s)
      (λ h. subst (λ x. IsSingle x.refresh_tokens) (sym e) (generate-IsSingle k fresh now s h))

pub register-Wrote :
    (email phone : Text) (password confirm hash otp id now : ℕ) (s : Db)
    → Wrote s (register_user email phone password confirm hash otp id now s).1
unfolding register_user
register-Wrote email phone password confirm hash otp id now s =
    elim (Bool-cases (password == confirm)) [
      | inr g ↦ unchanged (ground arith)
      | inl g ↦ elim (Option-cases (find_user (by_email email) s.users)) [
        | inr (x, e) ↦ unchanged (ground arith)
        | inl e ↦ elim (Option-cases (find_user (by_phone (phone_formatter phone)) s.users)) [
          | inr (x, f) ↦ unchanged (ground arith)
          | inl f ↦
              Wrote.added id (new_user email (phone_formatter phone) hash otp now) email refl e
                (ground arith) (λ h. subst IsSingle (ground arith) h)
        ]
      ]
    ]

pub email_code-Wrote :
    (email : Text) (code fresh now : ℕ) (s : Db)
    → Wrote s (verify_email_otp email code fresh now s).1
email_code-Wrote email code fresh now s = elim (verify_email-cases email code fresh now s) [
  | inl (no_ok, same) ↦ unchanged same
  | inr (k, u, e, g, run) ↦ generated k fresh now email_confirmed s (λ v. refl) (ap (λ r. r.1) run)
]

pub phone_code-Wrote :
    (phone : Text) (code fresh now : ℕ) (s : Db)
    → Wrote s (verify_phone_otp phone code fresh now s).1
unfolding verify_phone_otp
phone_code-Wrote phone code fresh now s =
    elim (Option-cases (find_user (phone_pending phone) s.users)) [
      | inl e ↦ unchanged (ground arith)
      | inr ((k, u), e) ↦
          elim (Bool-cases (
            is_code code u.phone_confirmation_otp u.phone_confirmation_otp_expiry
            && not (is_expired now u.phone_confirmation_otp_expiry))) [
              | inl g ↦ generated k fresh now phone_confirmed s (λ v. refl) (ground arith)
              | inr g ↦ unchanged (ground arith)
            ]
    ]

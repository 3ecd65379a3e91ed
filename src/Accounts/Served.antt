-- ===== src/Accounts/Served.antt =====
-- What every request does with the users and the tokens.
use fastmotion_delivery.Base.{
  ℕ, ◌≡◌, inl, inr, refl, sym, subst, Bool, true, ◌&&◌, ◌||◌, Option, none, some, [], ◌∷◌, ◌++◌,
  arith, ◌==◌, ltb, Bool-cases, Option-cases, if◌then◌else◌, is_some,
}
use fastmotion_delivery.Base.Dict.{update}
use fastmotion_delivery.Model.{Db, Text, User, Result, ok, err, is_ok, pure}
use fastmotion_delivery.Accounts.Contact.{find_user, by_email, by_contact}
use fastmotion_delivery.Accounts.Tokens.{find_token, generate_refresh_token, logout, revoke, muted}
use fastmotion_delivery.Accounts.SignUp.{
  resend_email_otp, resend_phone_otp, email_pending, phone_pending, with_email_code,
  with_phone_code, with_reset_code,
}
use fastmotion_delivery.Accounts.SignIn.{
  LoginAnswer, login, verify_user, sign_in, forgot_password, Verification, verify_user_otp,
  email_verified, has_code, is_normal, social, google_sign_in, google_account, new_google_user,
}
use fastmotion_delivery.Accounts.Request.{AccountRequest, serve_account}
use fastmotion_delivery.Accounts.Sessions.{IsSingle, generate-IsSingle, logout-IsSingle}
use fastmotion_delivery.Accounts.Codes.{generate-users, generate-ok, reset_refused}
use fastmotion_delivery.Accounts.Writes.{
  Wrote, unchanged, generated, signed_in_lem, register-Wrote, email_code-Wrote, phone_code-Wrote,
}

-- A user is changed, but for the email.
touched :
    (k : ℕ) (f : User → User) (s : Db) {t : Db}
    → ((u : User) → (f u).email ≡ u.email)
    → t.users ≡ update k f s.users
    → t.refresh_tokens ≡ s.refresh_tokens
    → Wrote s t
touched k f s keep e r = Wrote.changed k f keep e (λ h. subst IsSingle (sym r) h)

-- A result that is computed from the one of a handler leaves the state to it.
state_of :
    {A B : Type 0} (f : A → B) (r : Result A × Db)
    → (elim r.0 as (λ x. Result B × Db) [ ok a ↦ pure (f a) r.1 | err x ↦ (err x, r.1) ]).1 ≡ r.1
state_of f (ok a, t) = refl
state_of f (err x, t) = refl

run_of : {A : Type 0} (r : Result A × Db) → is_ok r.0 ≡ true → (a : A) × (r ≡ (ok a, r.1))
run_of (ok a, t) e = (a, refl)
run_of (err x, t) e = cc

-- A token is generated in any case.
generate-run :
    (k fresh now : ℕ) (s : Db)
    → (a : ℕ) × (generate_refresh_token k fresh now s
        ≡ (ok a, (generate_refresh_token k fresh now s).1))
generate-run k fresh now s =
    run_of (generate_refresh_token k fresh now s) (generate-ok k fresh now s)

resend_email-Wrote :
    (email : Text) (otp now : ℕ) (s : Db) → Wrote s (resend_email_otp email otp now s).1
unfolding resend_email_otp
resend_email-Wrote email otp now s = elim (Option-cases (find_user (email_pending email) s.users)) [
  | inl e ↦ unchanged (ground arith)
  | inr ((k, u), e) ↦
      touched k (with_email_code otp now) s (λ v. refl) (ground arith) (ground arith)
]

resend_phone-Wrote :
    (phone : Text) (otp now : ℕ) (s : Db) → Wrote s (resend_phone_otp phone otp now s).1
unfolding resend_phone_otp
resend_phone-Wrote phone otp now s = elim (Option-cases (find_user (phone_pending phone) s.users)) [
  | inl e ↦ unchanged (ground arith)
  | inr ((k, u), e) ↦
      touched k (with_phone_code otp now) s (λ v. refl) (ground arith) (ground arith)
]

forgot-Wrote :
    (contact : Text) (otp now : ℕ) (s : Db) → Wrote s (forgot_password contact otp now s).1
unfolding forgot_password
forgot-Wrote contact otp now s = elim (Option-cases (find_user (by_contact contact) s.users)) [
  | inl e ↦ unchanged (ground arith)
  | inr ((k, u), e) ↦
      touched k (with_reset_code otp now) s (λ v. refl) (ground arith) (ground arith)
]

login-state :
    (id : ℕ) (u : User) (otp fresh now : ℕ) (s : Db)
    → u.is_email_confirmed || u.is_phone_confirmed ≡ true
    → (login id u otp fresh now s).1 ≡ (generate_refresh_token id fresh now s).1
unfolding login
login-state id u otp fresh now s g = rw g (
    state_of
      (λ token. if is_normal u.type then LoginAnswer.signed_in token else LoginAnswer.no_answer)
      (generate_refresh_token id fresh now s))

login-Wrote :
    (id : ℕ) (u : User) (otp fresh now : ℕ) (s : Db) → Wrote s (login id u otp fresh now s).1
unfolding login
login-Wrote id u otp fresh now s =
    elim (Bool-cases (u.is_email_confirmed || u.is_phone_confirmed)) [
      | inl g ↦ signed_in_lem id fresh now s (login-state id u otp fresh now s g)
      | inr g ↦ elim (Bool-cases (is_some u.email)) [
        | inl e ↦ touched id (with_email_code otp now) s (λ v. refl) (ground arith) (ground arith)
        | inr e ↦ unchanged (ground arith)
      ]
    ]

sign-Wrote :
    (matches : (password hash : ℕ) → Bool) (contact : Text) (password otp fresh now : ℕ) (s : Db)
    → Wrote s (sign_in matches contact password otp fresh now s).1
unfolding sign_in verify_user
sign-Wrote matches contact password otp fresh now s =
    elim (Option-cases (find_user (by_contact contact) s.users)) [
      | inl e ↦ unchanged (ground arith)
      | inr ((k, u), e) ↦ elim (Bool-cases (u.is_active && matches password u.password_hash)) [
        | inl g ↦ subst (Wrote s) (ground arith) (login-Wrote k u otp fresh now s)
        | inr g ↦ unchanged (ground arith)
      ]
    ]

user_code-Wrote :
    (decoded : Option Verification) (code fresh now : ℕ) (s : Db)
    → Wrote s (verify_user_otp decoded code fresh now s).1
unfolding verify_user_otp
user_code-Wrote none code fresh now s = unchanged (ground arith)
user_code-Wrote (some v) code fresh now s = elim (Bool-cases (ltb v.expiry now)) [
  | inl g ↦ unchanged (ground arith)
  | inr g ↦ elim (Option-cases (find_user (email_pending v.email) s.users)) [
    | inl e ↦ unchanged (ground arith)
    | inr ((k, u), e) ↦ elim (Bool-cases (has_code code u.email_confirmation_code)) [
      | inr h ↦ unchanged (ground arith)
      | inl h ↦ elim (Bool-cases (is_normal v.type)) [
        | inr n ↦ unchanged (ground arith)
        | inl n ↦
            let (a, run) = generate-run k fresh now s in
            Wrote.changed k email_verified (λ v. refl)
              (ground (arith, run, generate-users k fresh now s))
              (λ one. subst IsSingle (ground (arith, run)) (generate-IsSingle k fresh now s one))
      ]
    ]
  ]
]

google-Wrote :
    (email : Option Text) (hash id fresh now : ℕ) (s : Db)
    → Wrote s (google_sign_in email hash id fresh now s).1
unfolding google_sign_in google_account
google-Wrote none hash id fresh now s = unchanged (ground arith)
google-Wrote (some e) hash id fresh now s = elim (Option-cases (find_user (by_email e) s.users)) [
  | inl f ↦
      let u = new_google_user e hash in
      let s' = record s { users = s.users ++ ((id, u) ∷ []) } in
      let (a, run) = generate-run id fresh now s' in
      Wrote.added id u e refl f (ground (arith, run, generate-users id fresh now s'))
        (λ h. subst IsSingle (ground (arith, run)) (generate-IsSingle id fresh now s' h))
  | inr ((k, u), f) ↦ elim (Bool-cases u.is_social_login) [
    | inl b ↦ signed_in_lem k fresh now s (ground arith)
    | inr b ↦ generated k fresh now social s (λ v. refl) (ground arith)
  ]
]

leave-Wrote : (user : ℕ) (token : Option ℕ) (s : Db) → Wrote s (logout user token s).1
unfolding logout revoke
leave-Wrote user none s =
    Wrote.changed user muted (λ v. refl) (ground arith) (logout-IsSingle user none s)
leave-Wrote user (some token) s =
    elim (Option-cases (find_token (λ t. t.token == token) s.refresh_tokens)) [
      | inl e ↦ Wrote.kept (ground arith) (λ h. logout-IsSingle user (some token) s h)
      | inr (t, e) ↦
          Wrote.changed user muted (λ v. refl) (ground arith) (logout-IsSingle user (some token) s)
    ]

pub serve-Wrote :
    (matches : (password hash : ℕ) → Bool) (q : AccountRequest) (s : Db)
    → Wrote s (serve_account matches q s)
unfolding serve_account
serve-Wrote matches (AccountRequest.register email phone password confirm hash otp id now) s =
    register-Wrote email phone password confirm hash otp id now s
serve-Wrote matches (AccountRequest.email_code email code fresh now) s =
    email_code-Wrote email code fresh now s
serve-Wrote matches (AccountRequest.phone_code phone code fresh now) s =
    phone_code-Wrote phone code fresh now s
serve-Wrote matches (AccountRequest.resend_email email otp now) s =
    resend_email-Wrote email otp now s
serve-Wrote matches (AccountRequest.resend_phone phone otp now) s =
    resend_phone-Wrote phone otp now s
serve-Wrote matches (AccountRequest.sign contact password otp fresh now) s =
    sign-Wrote matches contact password otp fresh now s
serve-Wrote matches (AccountRequest.forgot contact otp now) s = forgot-Wrote contact otp now s
serve-Wrote matches (AccountRequest.reset contact code hash now) s =
    unchanged (reset_refused contact code hash now s).1
serve-Wrote matches (AccountRequest.user_code decoded code fresh now) s =
    user_code-Wrote decoded code fresh now s
serve-Wrote matches (AccountRequest.google email hash id fresh now) s =
    google-Wrote email hash id fresh now s
serve-Wrote matches (AccountRequest.leave user token) s = leave-Wrote user token s

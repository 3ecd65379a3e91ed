-- ===== src/Accounts/Codes.antt =====
-- When a code is accepted, and what a request with a code comes to.
use fastmotion_delivery.Base.{
  ℕ, ◌≤◌, ◌≡◌, ◌↔◌, ◌⊎◌, inl, inr, refl, ap, ◌∙◌, Bool, true, false, not, ◌&&◌, Option, none, some,
  arith, Bool-cases, Option-cases,
}
use fastmotion_delivery.Base.Dict.{update}
use fastmotion_delivery.Model.{Db, Text, User, HttpError, is_ok, Untouched, Refused}
use fastmotion_delivery.Accounts.Contact.{find_user, by_email, by_contact}
use fastmotion_delivery.Accounts.Tokens.{generate_refresh_token, usable, find_token, is_live}
use fastmotion_delivery.Accounts.SignUp.{
  verify_email_otp, email_pending, email_confirmed, is_code, is_expired,
}
use fastmotion_delivery.Accounts.SignIn.{
  verify_user, sign_in, reset_password, google_sign_in, social,
}

pub generate-ok :
    (user fresh now : ℕ) (s : Db) → is_ok (generate_refresh_token user fresh now s).0 ≡ true
unfolding generate_refresh_token
generate-ok user fresh now s =
    elim (Option-cases (usable now (find_token (is_live user) s.refresh_tokens))) [
      | inl e ↦ ground arith
      | inr (t, e) ↦ ground arith
    ]

pub generate-users :
    (user fresh now : ℕ) (s : Db) → (generate_refresh_token user fresh now s).1.users ≡ s.users
unfolding generate_refresh_token
generate-users user fresh now s =
    elim (Option-cases (usable now (find_token (is_live user) s.refresh_tokens))) [
      | inl e ↦ ground arith
      | inr (t, e) ↦ ground arith
    ]

-- The code is the one that was sent, and is not expired.
abbrev pub IsGood : (code now : ℕ) (stored expiry : Option ℕ) → Type 0
IsGood code now stored expiry = (stored ≡ some code) × (e : ℕ) × (expiry ≡ some e) × (now ≤ e)

good :
    (code now : ℕ) (o x : Option ℕ)
    → is_code code o x && not (is_expired now x) ≡ true
    → IsGood code now o x
good code now none x h = cc
good code now (some c) none h = cc
good code now (some c) (some e) h = (ground arith, e, refl, ground arith)

good_iff :
    (code now : ℕ) (o x : Option ℕ)
    → IsGood code now o x
    → is_code code o x && not (is_expired now x) ≡ true
good_iff code now o x (p, e, q, le) = rw p (rw q (ground arith))

verify_email-runs :
    (email : Text) (code fresh now k : ℕ) (u : User) (s : Db)
    → find_user (email_pending email) s.users ≡ some (k, u)
    → is_code code u.email_confirmation_code u.email_confirmation_expiry_date
        && not (is_expired now u.email_confirmation_expiry_date)
      ≡ true
    → verify_email_otp email code fresh now s
      ≡ generate_refresh_token k fresh now (record s { users = update k email_confirmed s.users })
unfolding verify_email_otp
verify_email-runs email code fresh now k u s e g = ground arith

-- A request with an email's code is refused, or confirms the email and signs the user in.
pub verify_email-cases :
    (email : Text) (code fresh now : ℕ) (s : Db)
    → Untouched s (verify_email_otp email code fresh now s)
      ⊎ ((k : ℕ) × (u : User) × (find_user (email_pending email) s.users ≡ some (k, u))
          × IsGood code now u.email_confirmation_code u.email_confirmation_expiry_date
          × (verify_email_otp email code fresh now s
              ≡ generate_refresh_token k fresh now
                  (record s { users = update k email_confirmed s.users })))
unfolding verify_email_otp
verify_email-cases email code fresh now s =
    elim (Option-cases (find_user (email_pending email) s.users)) [
      | inl e ↦ inl (ground arith, ground arith)
      | inr ((k, u), e) ↦
          let c = u.email_confirmation_code in
          let x = u.email_confirmation_expiry_date in
          elim (Bool-cases (is_code code c x && not (is_expired now x))) [
            | inl g ↦
                inr (k, u, e, good code now c x g, verify_email-runs email code fresh now k u s e g)
            | inr g ↦ inl (ground arith, ground arith)
          ]
    ]

-- A code that was sent by email is accepted exactly when the first user with this email who is not
-- confirmed was sent this code, and it is not expired.
pub verify_email_iff :
    (email : Text) (code fresh now : ℕ) (s : Db)
    → (is_ok (verify_email_otp email code fresh now s).0 ≡ true) ↔ (
        (k : ℕ) × (u : User) × (find_user (email_pending email) s.users ≡ some (k, u))
        × IsGood code now u.email_confirmation_code u.email_confirmation_expiry_date)
verify_email_iff email code fresh now s = (
  λ h. elim (verify_email-cases email code fresh now s) [
    | inl (no_ok, same) ↦ cc (no_ok, h)
    | inr (k, u, e, g, run) ↦ (k, u, e, g)
  ],
  λ (k, u, e, g).
      let run =
        verify_email-runs email code fresh now k u s e
          (good_iff code now u.email_confirmation_code u.email_confirmation_expiry_date g) in
      ap (λ r. is_ok r.0) run
      ∙ generate-ok k fresh now (record s { users = update k email_confirmed s.users }),
)

pub reset_refused :
    (contact : Text) (code hash now : ℕ) (s : Db)
    → Untouched s (reset_password contact code hash now s)
unfolding reset_password
reset_refused contact code hash now s =
    elim (Option-cases (find_user (by_contact contact) s.users)) [
      | inl e ↦ (ground arith, ground arith)
      | inr ((k, u), e) ↦ (ground arith, ground arith)
    ]

google-ok :
    (email : Text) (hash id fresh now k : ℕ) (u : User) (s : Db)
    → find_user (by_email email) s.users ≡ some (k, u)
    → is_ok (google_sign_in (some email) hash id fresh now s).0 ≡ true
unfolding google_sign_in
google-ok email hash id fresh now k u s e = elim (Bool-cases u.is_social_login) [
  | inl b ↦ ground (arith, generate-ok k fresh now s)
  | inr b ↦ ground (arith, generate-ok k fresh now (record s { users = update k social s.users }))
]

-- A user whose account is deactivated is refused with a password, and signed in by Google.
pub deactivated_signs_in :
    (matches : (password hash : ℕ) → Bool) (email : Text) (password hash id otp fresh now k : ℕ)
    (u : User) (s : Db)
    → find_user (by_email email) s.users ≡ some (k, u)
    → find_user (by_contact email) s.users ≡ some (k, u)
    → u.is_active ≡ false
    → Refused HttpError.unauthorized s (sign_in matches email password otp fresh now s)
      × (is_ok (google_sign_in (some email) hash id fresh now s).0 ≡ true)
unfolding sign_in verify_user
deactivated_signs_in matches email password hash id otp fresh now k u s e c a =
    ((ground arith, ground arith), google-ok email hash id fresh now k u s e)

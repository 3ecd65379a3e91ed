-- ===== src/RiderAccounts/Entry.antt =====
-- Who is let in, and what a session leaves.
use fastmotion_delivery.Base.{
  ℕ, ◌<◌, ◌≡◌, ◌≢◌, List, [], ◌∷◌, ◌++◌, All, ◌↔◌, ◌⊎◌, inl, inr, refl, ap, ◌∙◌, Bool, true, false,
  not, ◌&&◌, Option, some, arith, ◌==◌, Bool-cases, Option-cases, is_some,
}
use fastmotion_delivery.Base.Dict.{update}
use fastmotion_delivery.Model.{
  Db, Text, Rider, RiderAccount, RefreshToken, HttpError, Result, ok, err, bind-ok, bind-err,
  update_rider, pure, ◌>>◌,
}
use fastmotion_delivery.Accounts.{revoke_all, new_token}
use fastmotion_delivery.RiderAccounts.Lookup.{find_rider, rider_by_contact, change_account}
use fastmotion_delivery.RiderAccounts.SignIn.{
  RiderAnswer, is_session, open_session, rider_login, rider_sign_in, verify_rider_password,
  require_device, logged_in, generate_rider_token,
}
use fastmotion_delivery.RiderAccounts.Sessions.{generate_lem, renewed, revoke_all_lem}

-- The device of the request is the one that the account is bound to, where that is enforced.
abbrev pub IsOwnDevice : (device : Option ℕ) → RiderAccount → Type 0
IsOwnDevice device a =
    (bound : ℕ)
    → a.bound_device_id ≡ some bound
    → a.enforce_device_binding ≡ true
    → device ≡ some bound

-- The state after a session has begun.
abbrev pub entered : (k : ℕ) (fcm : Option ℕ) (fresh now : ℕ) → Db → Db
entered k fcm fresh now s =
    let t = renewed k fresh now s in
    record t { riders = update k (change_account (logged_in fcm now)) t.riders }

abbrev pub answer : (fresh : ℕ) → Rider → RiderAnswer
answer fresh r =
    RiderAnswer.session fresh
      (r.account.enforce_device_binding && not (is_some r.account.bound_device_id))

device-cases :
    (device : Option ℕ) (a : RiderAccount) (s : Db)
    → IsOwnDevice device a × (require_device device a s ≡ (ok tt, s))
      ⊎ (e : HttpError) × (require_device device a s ≡ (err e, s))
device-cases device a s = elim (Option-cases a.bound_device_id) [
  | inl e ↦ inl (λ bound f g. cc (e, f), rw e refl)
  | inr (b, e) ↦ elim (Bool-cases a.enforce_device_binding) [
    | inr f ↦ inl (λ bound g h. cc (f, h), rw e (rw f refl))
    | inl f ↦ elim (Option-cases device) [
      | inl d ↦ inr (HttpError.bad_request, ground arith)
      | inr (d, q) ↦ elim (Bool-cases (d == b)) [
        | inl w ↦ inl (λ bound g h. ground arith, ground arith)
        | inr w ↦ inr (HttpError.forbidden, ground arith)
      ]
    ]
  ]
]

abbrev pub is_in : Result RiderAnswer → Bool
is_in (ok x) = is_session x
is_in (err e) = false

-- The account may be used: it is active, not suspended, and has a password of its own.
abbrev pub IsUsable : Rider → Type 0
IsUsable r =
    (r.is_active ≡ true) × (r.is_suspended ≡ false) × (r.account.must_change_password ≡ false)

own-runs :
    (device : Option ℕ) (a : RiderAccount) (s : Db)
    → IsOwnDevice device a
    → require_device device a s ≡ (ok tt, s)
own-runs device a s own = elim (Option-cases a.bound_device_id) [
  | inl e ↦ rw e refl
  | inr (b, e) ↦ elim (Bool-cases a.enforce_device_binding) [
    | inr f ↦ rw e (rw f refl)
    | inl f ↦ let d = own b e f in ground arith
  ]
]

opened :
    (k : ℕ) (r : Rider) (fcm : Option ℕ) (fresh now : ℕ) (s : Db)
    → open_session k r fcm fresh now s ≡ (ok (answer fresh r), entered k fcm fresh now s)
opened k r fcm fresh now s =
    bind-ok (generate_rider_token k fresh now)
      (λ token.
        update_rider k (change_account (logged_in fcm now))
        >> pure (
            RiderAnswer.session token
              (r.account.enforce_device_binding && not (is_some r.account.bound_device_id))))
      s (generate_lem k fresh now s)

login-runs :
    (k : ℕ) (r : Rider) (device fcm : Option ℕ) (fresh now : ℕ) (s : Db)
    → IsUsable r
    → require_device device r.account s ≡ (ok tt, s)
    → rider_login k r device fcm fresh now s ≡ (ok (answer fresh r), entered k fcm fresh now s)
unfolding rider_login
login-runs k r device fcm fresh now s (a, b, c) d =
    let go = bind-ok (require_device device r.account) (λ _. open_session k r fcm fresh now) s d in
    rw a (rw b (rw c (go ∙ opened k r fcm fresh now s)))

-- A login is no session and changes nothing, or the account may be used and its device is right.
login-cases :
    (k : ℕ) (r : Rider) (device fcm : Option ℕ) (fresh now : ℕ) (s : Db)
    → let x = rider_login k r device fcm fresh now s in
      (is_in x.0 ≡ false) × (x.1 ≡ s)
      ⊎ IsUsable r
        × IsOwnDevice device r.account
        × (x ≡ (ok (answer fresh r), entered k fcm fresh now s))
unfolding rider_login
login-cases k r device fcm fresh now s = elim (Bool-cases r.is_active) [
  | inr a ↦ inl (ground arith, ground arith)
  | inl a ↦ elim (Bool-cases r.is_suspended) [
    | inl b ↦ inl (ground arith, ground arith)
    | inr b ↦ elim (Bool-cases r.account.must_change_password) [
      | inl c ↦ inl (ground arith, ground arith)
      | inr c ↦ elim (device-cases device r.account s) [
        | inl (own, d) ↦ inr ((a, b, c), own, login-runs k r device fcm fresh now s (a, b, c) d)
        | inr (e, d) ↦
            let stop =
              bind-err (require_device device r.account) (λ _. open_session k r fcm fresh now) s
                d in
            inl (
              rw a (rw b (rw c (ap (λ x. is_in x.0) stop))),
              rw a (rw b (rw c (ap (λ x. x.1) stop))),
            )
      ]
    ]
  ]
]

module _ (matches : (password hash : ℕ) → Bool) (contact : Text) (password : ℕ)
    (device fcm : Option ℕ) (fresh now : ℕ) (s : Db) where
  -- The first rider of this email or phone number, who has this password, may use the account with
  -- this device.
  abbrev pub IsAdmitted : (k : ℕ) → Rider → Type 0
  IsAdmitted k r =
      (find_rider (rider_by_contact contact) s.riders ≡ some (k, r))
      × (matches password r.account.password_hash ≡ true)
      × IsUsable r
      × IsOwnDevice device r.account

  verified :
      (k : ℕ) (r : Rider)
      → find_rider (rider_by_contact contact) s.riders ≡ some (k, r)
      → r.is_active ≡ true
      → matches password r.account.password_hash ≡ true
      → rider_sign_in matches contact password device fcm fresh now s
        ≡ rider_login k r device fcm fresh now s
  unfolding rider_sign_in verify_rider_password
  verified k r e a m = ground arith

  sign_in-cases :
      let x = rider_sign_in matches contact password device fcm fresh now s in
      (is_in x.0 ≡ false) × (x.1 ≡ s)
      ⊎ ((k : ℕ) × (r : Rider) × IsAdmitted k r
          × (x ≡ (ok (answer fresh r), entered k fcm fresh now s)))
  unfolding rider_sign_in verify_rider_password
  sign_in-cases = elim (Option-cases (find_rider (rider_by_contact contact) s.riders)) [
    | inl e ↦ inl (ground arith, ground arith)
    | inr ((k, r), e) ↦ elim (Bool-cases r.is_active) [
      | inr a ↦ inl (ground arith, ground arith)
      | inl a ↦ elim (Bool-cases (matches password r.account.password_hash)) [
        | inr m ↦ inl (ground arith, ground arith)
        | inl m ↦ elim (login-cases k r device fcm fresh now s) [
          | inl (out, same) ↦ inl (
            ap (λ y. is_in y.0) (verified k r e a m) ∙ out,
            ap (λ y. y.1) (verified k r e a m) ∙ same,
          )
          | inr (u, own, run) ↦ inr (k, r, (e, m, u, own), verified k r e a m ∙ run)
        ]
      ]
    ]
  ]

  -- A rider who asks to sign in gets a session exactly when the first rider of this email or phone
  -- number has this password, is active, not suspended and need not change the password, and the
  -- request comes from the device that the account is bound to, where there is one and that is
  -- enforced. Otherwise nothing is changed.
  pub rider_sign_in_iff :
      let x = rider_sign_in matches contact password device fcm fresh now s in
      ((is_in x.0 ≡ true) ↔ ((k : ℕ) × (r : Rider) × IsAdmitted k r))
      × (is_in x.0 ≡ false → x.1 ≡ s)
  rider_sign_in_iff = (
    (
      λ h. elim sign_in-cases [
        | inl (out, same) ↦ cc (out, h)
        | inr (k, r, good, run) ↦ (k, r, good)
      ],
      λ (k, r, (e, m, (a, b, c), own)).
          let d = own-runs device r.account s own in
          ap (λ y. is_in y.0)
            (verified k r e a m ∙ login-runs k r device fcm fresh now s (a, b, c) d),
    ),
    λ h. elim sign_in-cases [
      | inl (out, same) ↦ same
      | inr (k, r, good, run) ↦ cc (ap (λ y. is_in y.0) run, h)
    ],
  )

  -- After a rider has got a session, the stored tokens are older ones, of which each of the rider is
  -- revoked, and a last one, which is the token that the session answers with, is the rider's and is
  -- neither revoked nor expired.
  pub session-live :
      is_in (rider_sign_in matches contact password device fcm fresh now s).0 ≡ true
      → let x = rider_sign_in matches contact password device fcm fresh now s in
        (k : ℕ) × (r : Rider) × (token : ℕ) × (flag : Bool) × (old : List RefreshToken)
        × (t : RefreshToken) × (find_rider (rider_by_contact contact) s.riders ≡ some (k, r))
        × (x.0 ≡ ok (RiderAnswer.session token flag))
        × (x.1.refresh_tokens ≡ old ++ (t ∷ []))
        × ((t.token ≡ token) × (t.user ≡ k) × (t.revoked ≡ false) × (now < t.expires_at))
        × All (λ u. (u.user ≢ k) ⊎ (u.revoked ≡ true)) old
  session-live h = elim sign_in-cases [
    | inl (out, same) ↦ cc (out, h)
    | inr (k, r, (e, m, u, own), run) ↦ (
      k,
      r,
      fresh,
      r.account.enforce_device_binding && not (is_some r.account.bound_device_id),
      revoke_all k s.refresh_tokens,
      new_token k fresh now,
      e,
      ap (λ y. y.0) run,
      ap (λ y. y.1.refresh_tokens) run,
      (refl, refl, refl, omega arith),
      revoke_all_lem k s.refresh_tokens,
    )
  ]

-- ===== src/RiderAccounts/Devices.antt =====
-- The device of a rider.
use fastmotion_delivery.Base.{
  ℕ, ◌≡◌, ◌≢◌, inl, inr, refl, sym, ap, subst, ◌∙◌, Bool, true, false, Option, none, some, arith,
  Bool-cases, Option-cases, is_some,
}
use fastmotion_delivery.Base.Dict.{
  Dict, lookup, update, lookup-update_self, lookup-update_ne, lookup-update_inv,
}
use fastmotion_delivery.Model.{Db, Text, Rider}
use fastmotion_delivery.RiderAccounts.Lookup.{find_rider, rider_by_contact, change_account}
use fastmotion_delivery.RiderAccounts.SignIn.{
  bind_device, holds_device, change_password, with_first_password, with_device, seen, rider_sign_in,
}
use fastmotion_delivery.RiderAccounts.Sessions.{generate_lem}
use fastmotion_delivery.RiderAccounts.Entry.{is_in, rider_sign_in_iff}
use fastmotion_delivery.RiderAccounts.Found.{find-none, find-update}

-- No device is bound to two riders.
abbrev pub IsExclusive : Dict Rider → Type 0
IsExclusive rs =
    (i j : ℕ) (x y : Rider) (d : ℕ)
    → lookup i rs ≡ some x
    → lookup j rs ≡ some y
    → x.account.bound_device_id ≡ some d
    → y.account.bound_device_id ≡ some d
    → i ≡ j

nobody_else :
    (id device i : ℕ) (x : Rider) (rs : Dict Rider)
    → find_rider (holds_device id device) rs ≡ none
    → lookup i rs ≡ some x
    → i ≢ id
    → x.account.bound_device_id ≢ some device
nobody_else id device i x rs n e ne h =
    let f = find-none (holds_device id device) rs i x n e in ground (arith, rw h at f)

bound-IsExclusive :
    (id device : ℕ) (model : Option ℕ) (now : ℕ) (rs : Dict Rider)
    → find_rider (holds_device id device) rs ≡ none
    → IsExclusive rs
    → IsExclusive (update id (change_account (with_device (some device) model now)) rs)
bound-IsExclusive id device model now rs n h i j x y d ix jy xd yd =
    let f = change_account (with_device (some device) model now) in
    let (x', ix', fx) = lookup-update_inv i id f rs ix in
    let (y', jy', fy) = lookup-update_inv j id f rs jy in
    let dev = λ (r : Rider). r.account.bound_device_id in
    elim fx [
      | inl (ii, xf) ↦ elim fy [
        | inl (jj, yf) ↦ ii ∙ sym jj
        | inr (nj, yv) ↦
            absurd
              (nobody_else id device j y' rs n jy' nj (sym (ap dev yv) ∙ yd ∙ sym xd ∙ ap dev xf))
      ]
      | inr (ni, xv) ↦ elim fy [
        | inl (jj, yf) ↦
            absurd
              (nobody_else id device i x' rs n ix' ni (sym (ap dev xv) ∙ xd ∙ sym yd ∙ ap dev yf))
        | inr (nj, yv) ↦ h i j x' y' d ix' jy' (sym (ap dev xv) ∙ xd) (sym (ap dev yv) ∙ yd)
      ]
    ]

-- A rider who binds a device leaves no device bound to two riders, if there was none: a request for
-- a device of somebody else is refused.
pub bind_device-IsExclusive :
    (id : ℕ) (r : Rider) (device : ℕ) (model : Option ℕ) (now : ℕ) (s : Db)
    → IsExclusive s.riders
    → IsExclusive (bind_device id r device model now s).1.riders
unfolding bind_device
bind_device-IsExclusive id r device model now s h =
    elim (Bool-cases (is_some r.account.bound_device_id)) [
      | inl b ↦ subst IsExclusive (ground arith) h
      | inr b ↦ elim (Option-cases (find_rider (holds_device id device) s.riders)) [
        | inr (x, e) ↦ subst IsExclusive (ground arith) h
        | inl e ↦
            subst IsExclusive (ground arith) (bound-IsExclusive id device model now s.riders e h)
      ]
    ]

changed :
    (id : ℕ) (r : Rider) (password hash : ℕ) (device model fcm : Option ℕ) (fresh now : ℕ) (s : Db)
    → r.account.must_change_password ≡ true
    → (change_password id r password password hash device model fcm fresh now s).1.riders
      ≡ update id
          (change_account (seen now))
          (update id (change_account (with_first_password hash device model fcm now)) s.riders)
unfolding change_password
changed id r password hash device model fcm fresh now s must =
    let f = change_account (with_first_password hash device model fcm now) in
    let go = generate_lem id fresh now (record s { riders = update id f s.riders }) in
    ground (arith, go)

-- A rider who is active, not suspended and has to change the password, and who gives a new password
-- and a device, gets a session with this password, if it matches its hash, from this device, with
-- an email or phone number that finds the rider, whatever device was bound before.
pub changed_then_signs_in :
    (matches : (password hash : ℕ) → Bool) (contact : Text) (id : ℕ) (r : Rider)
    (password hash device : ℕ) (model fcm : Option ℕ) (fresh now fresh' now' : ℕ) (s : Db)
    → lookup id s.riders ≡ some r
    → find_rider (rider_by_contact contact) s.riders ≡ some (id, r)
    → r.is_active ≡ true
    → r.is_suspended ≡ false
    → r.account.must_change_password ≡ true
    → matches password hash ≡ true
    → let t = (change_password id r password password hash (some device) model fcm fresh now s).1 in
      is_in (rider_sign_in matches contact password (some device) fcm fresh' now' t).0 ≡ true
changed_then_signs_in matches contact id r password hash device model fcm fresh now fresh' now' s
      known found active free must good =
    let f = change_account (with_first_password hash (some device) model fcm now) in
    let g = change_account (seen now) in
    let p = rider_by_contact contact in
    let rs = update id f s.riders in
    let t = (change_password id r password password hash (some device) model fcm fresh now s).1 in
    let found_f = find-update p f s.riders id r (λ i x. refl) known found in
    let found_g =
      find-update p g rs id (f r) (λ i x. refl) (lookup-update_self id f s.riders known) found_f in
    let here =
      ap (find_rider p) (changed id r password hash (some device) model fcm fresh now s must) in
    (rider_sign_in_iff matches contact password (some device) fcm fresh' now' t).0.1
      (id, g (f r), (here ∙ found_g, good, (active, free, refl), λ bound e enforced. e))

-- The first password binds a device that is bound to another rider already.
pub first_password_shares :
    (id : ℕ) (r : Rider) (password hash device : ℕ) (model fcm : Option ℕ) (fresh now i : ℕ)
    (x : Rider) (s : Db)
    → lookup id s.riders ≡ some r
    → lookup i s.riders ≡ some x
    → i ≢ id
    → r.account.must_change_password ≡ true
    → x.account.bound_device_id ≡ some device
    → let t = (change_password id r password password hash (some device) model fcm fresh now s).1 in
      ¬ IsExclusive t.riders
first_password_shares id r password hash device model fcm fresh now i x s known other ne must holds
      h =
    let f = change_account (with_first_password hash (some device) model fcm now) in
    let g = change_account (seen now) in
    let e = changed id r password hash (some device) model fcm fresh now s must in
    let rs = update id f s.riders in
    let self = lookup-update_self id g rs (lookup-update_self id f s.riders known) in
    let there = lookup-update_ne i id g rs ne ∙ lookup-update_ne i id f s.riders ne ∙ other in
    ne (h i id x (g (f r)) device (ap (lookup i) e ∙ there) (ap (lookup id) e ∙ self) holds refl)

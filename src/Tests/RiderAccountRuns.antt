-- ===== src/Tests/RiderAccountRuns.antt =====
-- The theorems on the accounts of riders at concrete states.
use fastmotion_delivery.Base.{
  All, ◌≢◌, ◌⊎◌, ◌<◌, List, ◌++◌, ℕ, ◌≡◌, ◌↔◌, refl, Bool, true, false, none, some, [], ◌∷◌, ◌==◌,
  arith,
}
use fastmotion_delivery.Base.Dict.{lookup, count}
use fastmotion_delivery.Model.{Db, Text, Rider, RefreshToken, ok, is_ok}
use fastmotion_delivery.Accounts.{is_phone, text_eq}
use fastmotion_delivery.RiderAccounts.{
  RiderAnswer, find_rider, rider_by_contact, change_account, rider_sign_in, change_password,
  bind_device, suspend_rider, keeps_busy, trim_end, trim_start,
}
use fastmotion_delivery.RiderAccounts.Entry.{is_in, IsAdmitted, rider_sign_in_iff, session-live}
use fastmotion_delivery.RiderAccounts.Devices.{
  IsExclusive, bind_device-IsExclusive, changed_then_signs_in,
}
use fastmotion_delivery.RiderAccounts.Suspension.{suspended_stays_out}
use fastmotion_delivery.Tests.Data.{empty_db, rider_doc}

-- An email with a letter in upper case, which is stored in lower case.
abbrev contact : Text
contact = 69 ∷ 64 ∷ 120 ∷ []

abbrev signed_up : Rider
signed_up = rider_doc 0 0

abbrev to_change : Rider
to_change = change_account (λ a. record a { must_change_password = true }) signed_up

abbrev one_rider : Rider → Db
one_rider r = record empty_db { riders = (7, r) ∷ [] }

-- A password is its own hash.
abbrev matches : (password hash : ℕ) → Bool
matches password hash = hash == password

no_devices : IsExclusive (one_rider signed_up).riders
unfolding lookup
no_devices i j x y d ix jy xd yd = ground arith

found : find_rider (rider_by_contact contact) (one_rider signed_up).riders ≡ some (7, signed_up)
unfolding find_rider is_phone text_eq trim_end trim_start
found = refl

rider_sign_in_iff_example :
    let x = rider_sign_in matches contact 900 none none 11 2000 (one_rider signed_up) in
    ((is_in x.0 ≡ true) ↔ (
      (k : ℕ) × (r : Rider) × IsAdmitted matches contact 900 none none 11 2000
        (one_rider signed_up)
        k
        r))
    × (is_in x.0 ≡ false → x.1 ≡ one_rider signed_up)
rider_sign_in_iff_example =
    rider_sign_in_iff matches contact 900 none none 11 2000 (one_rider signed_up)

enters : is_in (rider_sign_in matches contact 900 none none 11 2000 (one_rider signed_up)).0 ≡ true
enters =
    (rider_sign_in_iff matches contact 900 none none 11 2000 (one_rider signed_up)).0.1
      (7, signed_up, (found, refl, (refl, refl, refl), λ bound e enforced. cc e))

session-live_example :
    let x = rider_sign_in matches contact 900 none none 11 2000 (one_rider signed_up) in
    (k : ℕ) × (r : Rider) × (token : ℕ) × (flag : Bool) × (old : List RefreshToken)
    × (t : RefreshToken) × (find_rider (rider_by_contact contact) (one_rider signed_up).riders
        ≡ some (k, r))
    × (x.0 ≡ ok (RiderAnswer.session token flag))
    × (x.1.refresh_tokens ≡ old ++ (t ∷ []))
    × ((t.token ≡ token) × (t.user ≡ k) × (t.revoked ≡ false) × (2000 < t.expires_at))
    × All (λ u. (u.user ≢ k) ⊎ (u.revoked ≡ true)) old
session-live_example =
    session-live matches contact 900 none none 11 2000 (one_rider signed_up) enters

bind_device-IsExclusive_example :
    IsExclusive (bind_device 7 signed_up 55 none 3000 (one_rider signed_up)).1.riders
bind_device-IsExclusive_example =
    bind_device-IsExclusive 7 signed_up 55 none 3000 (one_rider signed_up) no_devices

known : (r : Rider) → lookup 7 (one_rider r).riders ≡ some r
unfolding lookup
known r = refl

found_to_change :
    find_rider (rider_by_contact contact) (one_rider to_change).riders ≡ some (7, to_change)
unfolding find_rider is_phone text_eq trim_end trim_start
found_to_change = refl

changed_then_signs_in_example :
    let t =
      (change_password 7 to_change 901 901 901
        (some 55)
        none
        none
        12
        3000
        (one_rider to_change)).1 in
    is_in (rider_sign_in matches contact 901 (some 55) none 13 4000 t).0 ≡ true
changed_then_signs_in_example =
    changed_then_signs_in matches contact 7 to_change 901 901 55 none none 12 3000 13 4000
      (one_rider to_change) (known to_change) found_to_change refl refl refl refl

suspends : is_ok (suspend_rider 1 7 2 3000 (one_rider signed_up)).0 ≡ true
unfolding suspend_rider lookup count
suspends = refl

suspended_stays_out_example :
    let t = (suspend_rider 1 7 2 3000 (one_rider signed_up)).1 in
    let x = rider_sign_in matches contact 900 none none 11 4000 t in
    (count (keeps_busy 7) t.deliveries ≡ 0) × (is_in x.0 ≡ false) × (x.1 ≡ t)
suspended_stays_out_example =
    suspended_stays_out matches contact 1 7 2 3000 signed_up 900 none none 11 4000
      (one_rider signed_up) (known signed_up) found suspends

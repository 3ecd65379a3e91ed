-- ===== src/RiderAccounts/Suspension.antt =====
-- A rider who is suspended.
use fastmotion_delivery.Base.{
  ℕ, ◌≡◌, ◌↔◌, ◌⊎◌, inl, inr, refl, sym, ap, ◌∙◌, Bool, true, false, Option, some, arith, ◌==◌,
  Bool-cases, Option-cases,
}
use mathlib.Core.Option.{some-injective}
use fastmotion_delivery.Base.Dict.{lookup, update, count, lookup-update_self}
use fastmotion_delivery.Model.{ok, Db, Text, Rider, is_ok, Untouched}
use fastmotion_delivery.RiderAccounts.Lookup.{find_rider, rider_by_contact, current_rider}
use fastmotion_delivery.RiderAccounts.SignIn.{rider_sign_in}
use fastmotion_delivery.RiderAccounts.Manage.{suspend_rider, suspended_with, keeps_busy}
use fastmotion_delivery.RiderAccounts.Entry.{is_in, rider_sign_in_iff}
use fastmotion_delivery.RiderAccounts.Found.{find-update}

-- A suspension is refused and changes nothing, or the rider has no delivery under way.
suspend-cases :
    (admin id reason now : ℕ) (r : Rider) (s : Db)
    → lookup id s.riders ≡ some r
    → let x = suspend_rider admin id reason now s in
      Untouched s x
      ⊎ (count (keeps_busy id) s.deliveries ≡ 0)
        × (x.1.deliveries ≡ s.deliveries)
        × (x.1.riders ≡ update id (suspended_with admin reason now) s.riders)
unfolding suspend_rider
suspend-cases admin id reason now r s known =
    elim (Bool-cases (count (keeps_busy id) s.deliveries == 0)) [
      | inr busy ↦ inl (ground arith, ground arith)
      | inl idle ↦ inr (ground arith, ground arith, ground arith)
    ]

-- A suspension succeeds exactly when the rider is known and has no delivery under way.
pub suspend_iff :
    (admin id reason now : ℕ) (s : Db)
    → (is_ok (suspend_rider admin id reason now s).0 ≡ true)
      ↔ (((r : Rider) × (lookup id s.riders ≡ some r)) × (count (keeps_busy id) s.deliveries ≡ 0))
unfolding suspend_rider
suspend_iff admin id reason now s = elim (Option-cases (lookup id s.riders)) [
  | inl e ↦ (λ h. ground arith, λ ((r, f), c). ground arith)
  | inr (r, e) ↦ (λ h. ((r, e), ground arith), λ ((q, f), c). ground arith)
]

-- After a rider was suspended, the rider has no delivery under way, and a request with an email or
-- a phone number that finds the rider gets no session, whatever the password and the device: nothing
-- is changed by it.
pub suspended_stays_out :
    (matches : (password hash : ℕ) → Bool) (contact : Text) (admin id reason now : ℕ) (r : Rider)
    (password : ℕ) (device fcm : Option ℕ) (fresh now' : ℕ) (s : Db)
    → lookup id s.riders ≡ some r
    → find_rider (rider_by_contact contact) s.riders ≡ some (id, r)
    → is_ok (suspend_rider admin id reason now s).0 ≡ true
    → let t = (suspend_rider admin id reason now s).1 in
      let x = rider_sign_in matches contact password device fcm fresh now' t in
      (count (keeps_busy id) t.deliveries ≡ 0) × (is_in x.0 ≡ false) × (x.1 ≡ t)
suspended_stays_out matches contact admin id reason now r password device fcm fresh now' s known
      found done =
    let t = (suspend_rider admin id reason now s).1 in
    let f = suspended_with admin reason now in
    let p = rider_by_contact contact in
    let (iff, kept) = rider_sign_in_iff matches contact password device fcm fresh now' t in
    elim (suspend-cases admin id reason now r s known) [
      | inl (fails, same) ↦ cc (fails, done)
      | inr (idle, ds, rs) ↦
          let here =
            ap (find_rider p) rs ∙ find-update p f s.riders id r (λ i x. refl) known found in
          let x = rider_sign_in matches contact password device fcm fresh now' t in
          let out : is_in x.0 ≡ false = elim (Bool-cases (is_in x.0)) [
            | inr o ↦ o
            | inl o ↦
                let (k, q, (e, m, (a, b, c), own)) = iff.0 o in
                let same = some-injective (id, f r) (k, q) (sym here ∙ e) in
                cc (ap (λ (z : ℕ × Rider). z.1.is_suspended) same, b)
          ] in
          (ap (count (keeps_busy id)) ds ∙ idle, out, kept out)
    ]

-- A suspended rider who is active still passes the guard of every other request with a token from
-- before.
pub suspended_passes :
    (admin id reason now : ℕ) (r : Rider) (s : Db)
    → lookup id s.riders ≡ some r
    → r.is_active ≡ true
    → is_ok (suspend_rider admin id reason now s).0 ≡ true
    → let t = (suspend_rider admin id reason now s).1 in
      current_rider id t ≡ (ok (suspended_with admin reason now r), t)
unfolding current_rider
suspended_passes admin id reason now r s known active done =
    elim (suspend-cases admin id reason now r s known) [
      | inl (fails, same) ↦ cc (fails, done)
      | inr (idle, ds, rs) ↦
          let f = suspended_with admin reason now in
          let here = ap (lookup id) rs ∙ lookup-update_self id f s.riders known in
          rw here (rw active refl)
    ]

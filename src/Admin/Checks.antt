-- ===== src/Admin/Checks.antt =====
-- When an admin may put a rider on a delivery, and what keeps a rider on the deliveries.
use fastmotion_delivery.Base.{
  ℕ, ◌≡◌, ◌↔◌, ◌⊎◌, refl, true, none, some, arith, subst, sym, inl, inr, Option-cases,
}
use fastmotion_delivery.Base.Int.{pos, ltb_ℤ}
use fastmotion_delivery.Base.Dict.{lookup, update, Always, Always-update}
use fastmotion_delivery.Model.{Db, Delivery, Rider, is_ok, includes, is_verified}
use fastmotion_delivery.Rider.Workflow.Manned.{RiderRides, IsManned}
use fastmotion_delivery.Admin.Override.{PinType, override_pin, overridden}
use fastmotion_delivery.Admin.Assign.{
  assign_rider, find_assignable, assigned_to, assignable_statuses,
}

-- What an admin checks of the rider.
abbrev pub IsAssignable : Rider → Type 0
IsAssignable r =
    (is_verified r.verification_status ≡ true)
    × (ltb_ℤ r.current_delivery_count (pos r.max_concurrent_deliveries) ≡ true)

-- An assignment succeeds exactly when the delivery is there, has no rider and is scheduled, pending
-- or searching, and the rider is there, verified and below the capacity.
pub assign_iff :
    (rider id now : ℕ) (s : Db)
    → (is_ok (assign_rider rider id now s).0 ≡ true) ↔ (
        (d : Delivery) × (r : Rider) × (lookup id s.deliveries ≡ some d)
        × (d.rider ≡ none)
        × (includes d.status assignable_statuses ≡ true)
        × (lookup rider s.riders ≡ some r)
        × IsAssignable r)
unfolding assign_rider find_assignable
assign_iff rider id now s = elim (Option-cases (lookup rider s.riders)) [
  | inl e ↦ ground arith
  | inr (r, e) ↦ elim (Option-cases (lookup id s.deliveries)) [
    | inl f ↦ ground arith
    | inr (d, f) ↦
        ((λ h. (d, r, f, ground arith, ground arith, e, ground arith)), λ h. ground arith)
  ]
]

-- An admin's write of one delivery that fits its rider leaves all of them so.
pub update-IsManned :
    (id : ℕ) (f : Delivery → Delivery) (s : Db)
    → IsManned s
    → ((d : Delivery)
        → lookup id s.deliveries ≡ some d
        → RiderRides d.status d.rider
        → RiderRides (f d).status (f d).rider)
    → Always (λ _ d. RiderRides d.status d.rider) (update id f s.deliveries)
update-IsManned id f s staffed keep =
    Always-update (λ _ d. RiderRides d.status d.rider) id f s.deliveries keep staffed

module _ (id now : ℕ) (s : Db) where
  assign-deliveries :
      (rider : ℕ)
      → let t = (assign_rider rider id now s).1 in
        (t.deliveries ≡ s.deliveries)
        ⊎ (t.deliveries ≡ update id (assigned_to rider now) s.deliveries)
  unfolding assign_rider find_assignable
  assign-deliveries rider = ground arith

  override-deliveries :
      (pin : PinType)
      → let t = (override_pin id pin now s).1 in
        (t.deliveries ≡ s.deliveries) ⊎ (t.deliveries ≡ update id (overridden pin now) s.deliveries)
  unfolding override_pin
  override-deliveries pin = ground arith

  overridden-RiderRides :
      (pin : PinType) (d : Delivery)
      → RiderRides d.status d.rider
      → RiderRides (overridden pin now d).status (overridden pin now d).rider
  overridden-RiderRides PinType.pickup d h = ground arith
  overridden-RiderRides PinType.delivery d h = ground arith

-- An assignment and an override of a PIN, whether they succeed or not, keep every delivery for which a
-- rider is looked for without one and every delivery under way or handed over with one.
pub admin-IsManned :
    (rider id now : ℕ) (pin : PinType) (s : Db)
    → IsManned s
    → IsManned (assign_rider rider id now s).1 × IsManned (override_pin id pin now s).1
admin-IsManned rider id now pin s staffed = (
  elim (assign-deliveries id now s rider) [
    | inl e ↦ subst (Always (λ _ d. RiderRides d.status d.rider)) (sym e) staffed
    | inr e ↦
        subst (Always (λ _ d. RiderRides d.status d.rider)) (sym e)
          (update-IsManned id (assigned_to rider now) s staffed (λ d f h. refl))
  ],
  elim (override-deliveries id now s pin) [
    | inl e ↦ subst (Always (λ _ d. RiderRides d.status d.rider)) (sym e) staffed
    | inr e ↦ subst (Always (λ _ d. RiderRides d.status d.rider)) (sym e) (
        update-IsManned id (overridden pin now) s staffed
          (λ d f h. overridden-RiderRides id now s pin d h))
  ],
)

-- ===== src/Admin/Counts.antt =====
-- The counts of current deliveries of all riders together, over what an admin does.
use fastmotion_delivery.Base.{
  ℕ, Bool, ◌≡◌, ◌⊎◌, inl, inr, refl, ap, ◌∙◌, true, false, Option, none, some, [], ◌∷◌, arith,
  Option-cases, Bool-cases, ◌==◌,
}
use fastmotion_delivery.Base.Int.{ℤ, pos, ◌+ℤ◌, ◌-ℤ◌}
use fastmotion_delivery.Base.Dict.{Dict, lookup, update, lookup-update_self, lookup-update_ne}
use fastmotion_delivery.Model.{Db, Delivery, Rider, ok, is_ok}
use fastmotion_delivery.Rider.{take_on}
use fastmotion_delivery.Admin.Assign.{
  assign_rider, reassign_rider, find_assignable, unassign, dropped,
}
use fastmotion_delivery.Admin.Override.{
  manual_complete, manual_cancel, release, one_completed, one_less, is_over,
}

-- The sum of `currentDeliveryCount` over all riders
unfoldable pub total_count : Dict Rider → ℤ
total_count [] = pos 0
total_count ((k, r) ∷ rs) = r.current_delivery_count +ℤ total_count rs

less_left : (a b : ℤ) → (a -ℤ pos 1) +ℤ b ≡ (a +ℤ b) -ℤ pos 1
unfolding ◌+ℤ◌ ◌-ℤ◌
less_left a b = ground arith

less_right : (a b : ℤ) → a +ℤ (b -ℤ pos 1) ≡ (a +ℤ b) -ℤ pos 1
unfolding ◌+ℤ◌ ◌-ℤ◌
less_right a b = ground arith

-- An update that changes a rider's count by one changes the sum by one.
total_count-less :
    (k : ℕ) (f : Rider → Rider) (rs : Dict Rider) {r : Rider}
    → ((x : Rider) → (f x).current_delivery_count ≡ x.current_delivery_count -ℤ pos 1)
    → lookup k rs ≡ some r
    → total_count (update k f rs) ≡ total_count rs -ℤ pos 1
unfolding total_count lookup update
total_count-less k f [] less e = cc
total_count-less k f ((i, x) ∷ rs) {r} less e = elim (Bool-cases (k == i)) [
  | inl h ↦ rw h (rw (less x) (less_left x.current_delivery_count (total_count rs)))
  | inr h ↦ rw h (
      rw (total_count-less k f rs less (rw h at e))
        (less_right x.current_delivery_count (total_count rs)))
]

more_left : (a b : ℤ) → (a +ℤ pos 1) +ℤ b ≡ (a +ℤ b) +ℤ pos 1
unfolding ◌+ℤ◌
more_left a b = ground arith

more_right : (a b : ℤ) → a +ℤ (b +ℤ pos 1) ≡ (a +ℤ b) +ℤ pos 1
unfolding ◌+ℤ◌
more_right a b = ground arith

less_more : (a : ℤ) → a -ℤ pos 1 +ℤ pos 1 ≡ a
unfolding ◌+ℤ◌ ◌-ℤ◌
less_more a = ground arith

total_count-more :
    (k : ℕ) (f : Rider → Rider) (rs : Dict Rider) {r : Rider}
    → ((x : Rider) → (f x).current_delivery_count ≡ x.current_delivery_count +ℤ pos 1)
    → lookup k rs ≡ some r
    → total_count (update k f rs) ≡ total_count rs +ℤ pos 1
unfolding total_count lookup update
total_count-more k f [] more e = cc
total_count-more k f ((i, x) ∷ rs) {r} more e = elim (Bool-cases (k == i)) [
  | inl h ↦ rw h (rw (more x) (more_left x.current_delivery_count (total_count rs)))
  | inr h ↦ rw h (
      rw (total_count-more k f rs more (rw h at e))
        (more_right x.current_delivery_count (total_count rs)))
]

-- An update leaves every rider there.
lookup-update-some :
    (j k : ℕ) (f : Rider → Rider) (rs : Dict Rider) {r : Rider}
    → lookup j rs ≡ some r
    → (w : Rider) × (lookup j (update k f rs) ≡ some w)
lookup-update-some j k f rs {r} e = elim (Bool-cases (j == k)) [
  | inl h ↦ (f r, ground (arith, lookup-update_self k f rs {v = r}))
  | inr h ↦ (r, ground (arith, lookup-update_ne j k f rs))
]

unassign-riders :
    (id p : ℕ) (s : Db)
    → (idle : Bool) × ((unassign id (some p) s).1.riders ≡ update p (dropped idle) s.riders)
unfolding unassign
unassign-riders id p s = (_, refl)

unassign-ok : (id : ℕ) (o : Option ℕ) (s : Db) → (unassign id o s).0 ≡ ok tt
unfolding unassign
unassign-ok id none s = refl
unassign-ok id (some p) s = refl

reassign-riders :
    (rider id now : ℕ) (d : Delivery) (s : Db)
    → lookup id s.deliveries ≡ some d
    → is_ok (reassign_rider rider id now s).0 ≡ true
    → ((r : Rider) × (lookup rider s.riders ≡ some r))
      × ((reassign_rider rider id now s).1.riders
          ≡ update rider take_on (unassign id d.rider s).1.riders)
unfolding reassign_rider find_assignable
reassign-riders rider id now d s e h = elim (Option-cases (lookup rider s.riders)) [
  | inl f ↦ ground arith
  | inr (r, f) ↦ ((r, f), ground (arith, unassign-ok id d.rider s))
]

-- A delivery that is handed from one rider to another, or to the same, leaves the sum of the riders'
-- counts as it was; one that had no rider adds one to it.
pub reassign_counts :
    (rider id now : ℕ) (d : Delivery) (s : Db)
    → lookup id s.deliveries ≡ some d
    → is_ok (reassign_rider rider id now s).0 ≡ true
    → let t = (reassign_rider rider id now s).1 in
      ((d.rider ≡ none) × (total_count t.riders ≡ total_count s.riders +ℤ pos 1))
      ⊎ ((p : ℕ) × (d.rider ≡ some p)
          × ((lookup p s.riders ≡ none) ⊎ (total_count t.riders ≡ total_count s.riders)))
unfolding unassign
reassign_counts rider id now d s e h =
    let ((r, f), w) = reassign-riders rider id now d s e h in
    elim (Option-cases d.rider) [
      | inl g ↦ inl (g, ground (arith, total_count-more rider take_on s.riders {r = r} (λ x. refl)))
      | inr (p, g) ↦ inr (
        p,
        g,
        elim (Option-cases (lookup p s.riders)) [
          | inl k ↦ inl k
          | inr (q, k) ↦
              let (idle, u) = unassign-riders id p s in
              let (r', f') = lookup-update-some rider p (dropped idle) s.riders f in
              let less = total_count-less p (dropped idle) s.riders {r = q} (λ x. refl) k in
              let more =
                total_count-more rider take_on (update p (dropped idle) s.riders) {r = r'}
                  (λ x. refl) f' in
              inr (
                ap total_count w
                ∙ ap (λ o. total_count (update rider take_on (unassign id o s).1.riders)) g
                ∙ ap (λ x. total_count (update rider take_on x)) u
                ∙ more
                ∙ ap (λ z. z +ℤ pos 1) less
                ∙ less_more (total_count s.riders))
        ],
      )
    ]

-- An assignment adds one to the sum; the completion and the cancellation of a delivery that has a
-- rider take one from it.
pub assign_counts :
    (rider id now : ℕ) (s : Db)
    → is_ok (assign_rider rider id now s).0 ≡ true
    → total_count (assign_rider rider id now s).1.riders ≡ total_count s.riders +ℤ pos 1
unfolding assign_rider find_assignable
assign_counts rider id now s h = elim (Option-cases (lookup rider s.riders)) [
  | inl f ↦ ground arith
  | inr (r, f) ↦ ground (arith, total_count-more rider take_on s.riders {r = r} (λ x. refl))
]

pub end_counts :
    (id now p : ℕ) (refund : Bool) (amount : Option ℕ) (d : Delivery) (r : Rider) (s : Db)
    → lookup id s.deliveries ≡ some d
    → d.rider ≡ some p
    → lookup p s.riders ≡ some r
    → is_over d.status ≡ false
    → (total_count (manual_complete id now s).1.riders ≡ total_count s.riders -ℤ pos 1)
      × (total_count (manual_cancel id refund amount now s).1.riders
          ≡ total_count s.riders -ℤ pos 1)
unfolding manual_complete manual_cancel release
end_counts id now p refund amount d r s e f g h = ground (
  arith,
  total_count-less p one_completed s.riders {r = r} (λ x. refl),
  total_count-less p one_less s.riders {r = r} (λ x. refl),
)

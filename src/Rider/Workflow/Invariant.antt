-- ===== src/Rider/Workflow/Invariant.antt =====
-- Runs of the riders' requests and the deliveries.
use fastmotion_delivery.Base.{
  ℕ, ◌≤◌, ◌≡◌, refl, sym, subst, ◌∙◌, inl, inr, true, false, Option, some, [], ◌∷◌, arith, is_some,
  Bool-cases, ◌==◌, ==→eq, List, All,
}
use mathlib.Core.Option.{some-injective}
use native.Mathlib.Nat.{le_refl, le_trans}
use fastmotion_delivery.Base.Dict.{
  lookup, update, Always, Always-update, lookup-update_self, lookup-update_ne,
}
use fastmotion_delivery.Model.{Db, DeliveryStatus, Delivery, code, includes, without_pins}
use fastmotion_delivery.Rider.Progress.{valid_transitions}
use fastmotion_delivery.Rider.Workflow.Request.{
  Request, accept, update_status, toggle, handle, Call, run, is_reject,
}
use fastmotion_delivery.Rider.Workflow.Writes.{Wrote, target, Passed, change, handle-Wrote}
use DeliveryStatus.{pending, searching_rider, cancelled, failed, scheduled}

-- A delivery that a rider has taken on has that rider; one that waits for a rider has none.
abbrev pub RiderFits : DeliveryStatus → Option ℕ → Type 0
RiderFits pending r = is_some r ≡ false
RiderFits searching_rider r = is_some r ≡ false
RiderFits cancelled r = Unit
RiderFits failed r = Unit
RiderFits scheduled r = Unit
RiderFits _ r = is_some r ≡ true

abbrev pub IsStaffed : Db → Type 0
IsStaffed s = Always (λ _ d. RiderFits d.status d.rider) s.deliveries

-- A write of the one delivery that keeps a property of deliveries keeps it for all of them.
pub Wrote-Always :
    (Q : Delivery → Type 0) (P : Delivery → Type 0) (f : Delivery → Delivery → Delivery) (id : ℕ)
    (s t : Db)
    → ((read d : Delivery) → P d → Q d → Q (f read d))
    → Wrote P f id s t
    → Always (λ _. Q) s.deliveries
    → Always (λ _. Q) t.deliveries
Wrote-Always Q P f id s t keep (inl same) h = subst (Always (λ _. Q)) (sym same) h
Wrote-Always Q P f id s t keep (inr (d, e, p, w)) h = subst (Always (λ _. Q)) (sym w) (
    Always-update (λ _. Q) id (f (without_pins d)) s.deliveries
      (λ v ev. keep (without_pins d) v (subst P (some-injective _ _ (sym e ∙ ev)) p)) h)

transition-RiderFits :
    (new old : DeliveryStatus) (r : Option ℕ)
    → is_some r ≡ true
    → includes new (valid_transitions old) ≡ true
    → RiderFits new r
transition-RiderFits pending old r h i = ground arith
transition-RiderFits _ old r h i = ground arith

change-RiderFits :
    (rider now : ℕ) (r : Request) (read d : Delivery)
    → Passed rider r d
    → RiderFits d.status d.rider
    → RiderFits (change rider now r read d).status (change rider now r read d).rider
change-RiderFits rider now (accept doc id) read d p q = refl
change-RiderFits rider now (update_status id new) read d p q =
    ground (arith, transition-RiderFits new d.status d.rider)
change-RiderFits rider now (toggle doc) read d p q = q
change-RiderFits rider now _ read d p q = ground arith

-- Whatever requests the riders make, in whatever order, a delivery that waits for a rider has none
-- and one that is under way or handed over has one, if it was so at the start.
pub run-IsStaffed : (cs : List Call) (s : Db) → IsStaffed s → IsStaffed (run cs s)
unfolding run
run-IsStaffed [] s h = h
run-IsStaffed (c ∷ cs) s h = run-IsStaffed cs (handle c.rider c.now c.request s) (
    Wrote-Always (λ d. RiderFits d.status d.rider) (Passed c.rider c.request)
      (change c.rider c.now c.request) (target c.request) s (handle c.rider c.now c.request s)
      (change-RiderFits c.rider c.now c.request) (handle-Wrote c.rider c.now c.request s) h)

change-forward :
    (rider now : ℕ) (r : Request) (read d : Delivery)
    → is_reject r ≡ false
    → Passed rider r d
    → code d.status ≤ code (change rider now r read d).status
change-forward rider now (accept doc id) read d n p = ground arith
change-forward rider now (toggle doc) read d n p = le_refl _
change-forward rider now _ read d n p = ground arith

handle-forward :
    (rider now : ℕ) (r : Request) (s : Db) (j : ℕ) (d : Delivery)
    → is_reject r ≡ false
    → lookup j s.deliveries ≡ some d
    → (e : Delivery) × (lookup j (handle rider now r s).deliveries ≡ some e)
      × (code d.status ≤ code e.status)
handle-forward rider now r s j d n h = go (handle-Wrote rider now r s)
  where
    go :
        Wrote (Passed rider r) (change rider now r) (target r) s (handle rider now r s)
        → (e : Delivery) × (lookup j (handle rider now r s).deliveries ≡ some e)
          × (code d.status ≤ code e.status)
    go (inl same) = (d, subst (λ m. lookup j m ≡ some d) (sym same) h, le_refl _)
    go (inr (c, e, p, w)) =
        let f : Delivery → Delivery = change rider now r (without_pins c) in
        elim (Bool-cases (j == target r)) [
          | inl at ↦
              let found : lookup (target r) s.deliveries ≡ some d =
                subst (λ k. lookup k s.deliveries ≡ some d) (==→eq j (target r) at) h in
              let same : c ≡ d = some-injective _ _ (sym e ∙ found) in
              (
                f d,
                subst (λ m. lookup j m ≡ some (f d)) (sym w)
                    (subst (λ k. lookup k (update (target r) f s.deliveries) ≡ some (f d))
                      (sym (==→eq j (target r) at))
                      (lookup-update_self (target r) f s.deliveries found)),
                change-forward rider now r (without_pins c) d n (subst (Passed rider r) same p),
              )
          | inr off ↦ (
            d,
            subst (λ m. lookup j m ≡ some d) (sym w)
                (lookup-update_ne j (target r) f s.deliveries (ground arith) ∙ h),
            le_refl _,
          )
        ]

-- Without a rejection no run of the riders' requests takes a delivery back: in the order of the
-- enum, its status at the end is the one at the start or a later one.
pub run-forward :
    (cs : List Call) (s : Db) (j : ℕ) (d : Delivery)
    → All (λ c. is_reject c.request ≡ false) cs
    → lookup j s.deliveries ≡ some d
    → (e : Delivery) × (lookup j (run cs s).deliveries ≡ some e) × (code d.status ≤ code e.status)
unfolding run
run-forward [] s j d n h = (d, h, le_refl _)
run-forward (c ∷ cs) s j d n h =
    let (e, found, le1) = handle-forward c.rider c.now c.request s j d n.0 h in
    let (f, last, le2) = run-forward cs (handle c.rider c.now c.request s) j e n.1 found in
    (f, last, le_trans le1 le2)

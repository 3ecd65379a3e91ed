-- ===== src/Disputes/Access.antt =====
-- Who may complain, and what an approved refund comes to.
use fastmotion_delivery.Base.{
  ℕ, ◌+◌, ◌≤◌, ◌≡◌, ◌≢◌, ◌↔◌, inl, inr, refl, sym, ◌∙◌, true, false, Option, none, some, [], ◌∷◌,
  arith, Option-cases, All,
}
use fastmotion_delivery.Base.Dict.{Dict, lookup, lookup-update_self}
use fastmotion_delivery.Model.{Db, Delivery, DeliveryStatus, Dispute, includes, is_ok}
use fastmotion_delivery.Disputes.Filing.{
  Complaint, create_dispute, store_dispute, can_create, has_complaint, disputable_statuses,
  completion_date, is_recent,
}
use fastmotion_delivery.Disputes.Support.{Decision, update_dispute_status, decided}

-- No dispute is about the delivery.
abbrev pub Undisputed : (id : ℕ) → Dict Dispute → Type 0
Undisputed id ds = All (λ kx. kx.1.delivery_request ≢ id) ds

Undisputed-has_complaint :
    (id : ℕ) (ds : Dict Dispute) → has_complaint id ds ≡ false → Undisputed id ds
unfolding has_complaint
Undisputed-has_complaint id [] h = tt
Undisputed-has_complaint id ((k, x) ∷ ds) h =
    (ground arith, Undisputed-has_complaint id ds (ground arith))

has_complaint-Undisputed :
    (id : ℕ) (ds : Dict Dispute) → Undisputed id ds → has_complaint id ds ≡ false
unfolding has_complaint
has_complaint-Undisputed id [] h = refl
has_complaint-Undisputed id ((k, x) ∷ ds) (p, ps) =
    ground (arith, has_complaint-Undisputed id ds ps)

-- The delivery was over 7 days ago at most, or is not over.
abbrev pub IsRecent : (now : ℕ) → Option ℕ → Type 0
IsRecent now none = Unit
IsRecent now (some t) = now ≤ t + 604_800_000

IsRecent-is_recent : (now : ℕ) (o : Option ℕ) → is_recent now o ≡ true → IsRecent now o
IsRecent-is_recent now none h = tt
IsRecent-is_recent now (some t) h = ground arith

is_recent-IsRecent : (now : ℕ) (o : Option ℕ) → IsRecent now o → is_recent now o ≡ true
is_recent-IsRecent now none h = refl
is_recent-IsRecent now (some t) h = ground arith

-- The stages at which a customer may complain.
pub data IsDisputable (x : DeliveryStatus) : Type 0 where
  delivered : x ≡ DeliveryStatus.delivered → IsDisputable x
  completed : x ≡ DeliveryStatus.completed → IsDisputable x
  cancelled : x ≡ DeliveryStatus.cancelled → IsDisputable x
  failed : x ≡ DeliveryStatus.failed → IsDisputable x
  on_the_way : x ≡ DeliveryStatus.in_transit → IsDisputable x

includes-IsDisputable :
    (x : DeliveryStatus) → includes x disputable_statuses ≡ true → IsDisputable x
includes-IsDisputable DeliveryStatus.delivered h = IsDisputable.delivered refl
includes-IsDisputable DeliveryStatus.completed h = IsDisputable.completed refl
includes-IsDisputable DeliveryStatus.cancelled h = IsDisputable.cancelled refl
includes-IsDisputable DeliveryStatus.failed h = IsDisputable.failed refl
includes-IsDisputable DeliveryStatus.in_transit h = IsDisputable.on_the_way refl
includes-IsDisputable _ h = ground arith

IsDisputable-includes :
    (x : DeliveryStatus) → IsDisputable x → includes x disputable_statuses ≡ true
IsDisputable-includes x (IsDisputable.delivered e) = rw e refl
IsDisputable-includes x (IsDisputable.completed e) = rw e refl
IsDisputable-includes x (IsDisputable.cancelled e) = rw e refl
IsDisputable-includes x (IsDisputable.failed e) = rw e refl
IsDisputable-includes x (IsDisputable.on_the_way e) = rw e refl

create-ok :
    (user id dispute_id ticket now : ℕ) (c : Complaint) (d : Delivery) (s : Db)
    → lookup id s.deliveries ≡ some d
    → is_ok (create_dispute user id dispute_id ticket c now s).0
      ≡ can_create user id now d s.disputes
unfolding create_dispute store_dispute
create-ok user id dispute_id ticket now c d s e = ground arith

create-found :
    (user id dispute_id ticket now : ℕ) (c : Complaint) (s : Db)
    → lookup id s.deliveries ≡ none
    → is_ok (create_dispute user id dispute_id ticket c now s).0 ≡ false
unfolding create_dispute store_dispute
create-found user id dispute_id ticket now c s e = ground arith

-- A complaint is accepted exactly when the delivery is there, is the customer's own, has no dispute,
-- is delivered, completed, cancelled, failed or in transit, and was over 7 days ago at most, if it
-- is over; whether it was paid for is not asked.
pub create_iff :
    (user id dispute_id ticket now : ℕ) (c : Complaint) (s : Db)
    → (is_ok (create_dispute user id dispute_id ticket c now s).0 ≡ true) ↔ (
        (d : Delivery) × (lookup id s.deliveries ≡ some d)
        × (d.customer ≡ user)
        × Undisputed id s.disputes
        × IsDisputable d.status
        × IsRecent now (completion_date d))
unfolding can_create
create_iff user id dispute_id ticket now c s = elim (Option-cases (lookup id s.deliveries)) [
  | inl e ↦ (λ h. cc (h, create-found user id dispute_id ticket now c s e), λ p. cc (p.1, e))
  | inr (d, e) ↦
      let ok = create-ok user id dispute_id ticket now c d s e in
      (
        λ h.
            let all : can_create user id now d s.disputes ≡ true = sym ok ∙ h in
            (
              d,
              e,
              ground arith,
              Undisputed-has_complaint id s.disputes (ground arith),
              includes-IsDisputable d.status (ground arith),
              IsRecent-is_recent now (completion_date d) (ground arith),
            ),
        λ p.
            let ok' = create-ok user id dispute_id ticket now c p.0 s p.1 in
            ok'
            ∙ ground (
              arith,
              has_complaint-Undisputed id s.disputes p.3,
              IsDisputable-includes p.0.status p.4,
              is_recent-IsRecent now (completion_date p.0) p.5,
            ),
      )
]

-- An admin who approves a refund marks the dispute, and no payment, wallet or transaction changes.
pub approved_unrefunded :
    (admin id text now : ℕ) (v : Decision) (x : Dispute) (s : Db)
    → lookup id s.disputes ≡ some x
    → v.refund_approved ≡ some true
    → let t = (update_dispute_status admin id text v now s).1 in
      (lookup id t.disputes ≡ some (decided admin text v now x))
      × ((decided admin text v now x).refund_approved ≡ true)
      × (t.payments ≡ s.payments)
      × (t.wallets ≡ s.wallets)
      × (t.transactions ≡ s.transactions)
unfolding update_dispute_status
approved_unrefunded admin id text now v x s e a = (
  ground (arith, lookup-update_self id (decided admin text v now) s.disputes e),
  ground arith,
  ground arith,
  ground arith,
  ground arith,
)

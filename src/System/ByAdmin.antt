-- ===== src/System/ByAdmin.antt =====
-- apps/admin-api/src/delivery/delivery.service.ts: what cancellations, prices and refunds of an admin
-- do to the riders of the deliveries.
use fastmotion_delivery.Base.{
  ℕ, ◌≡◌, ◌⊎◌, inl, inr, Bool, ◌||◌, ◌&&◌, leb, Option, arith, Option-cases, Bool-cases,
}
use fastmotion_delivery.Base.Dict.{lookup, update}
use fastmotion_delivery.Model.{Db, PaymentStatus, is_paid}
use fastmotion_delivery.Rider.Workflow.Manned.{IsManned}
use fastmotion_delivery.Admin.{
  manual_cancel, cancelled_by_admin, release, adjust_price, priced, issue_refund, note_refund,
  with_payment_status, is_over, refund_status, amount_or_price, is_refundable,
}
use fastmotion_delivery.Admin.Checks.{update-IsManned}
use fastmotion_delivery.System.Writes.{same-IsManned, changed-IsManned}

module _ (id : ℕ) (s : Db) where
  admin_cancel-deliveries :
      (refund : Bool) (amount : Option ℕ) (now : ℕ)
      → let t = (manual_cancel id refund amount now s).1 in
        let cancelled = update id (cancelled_by_admin now) s.deliveries in
        (t.deliveries ≡ s.deliveries)
        ⊎ ((t.deliveries ≡ cancelled)
            ⊎ ((p : PaymentStatus) × (t.deliveries ≡ update id (with_payment_status p) cancelled)))
  unfolding manual_cancel release
  admin_cancel-deliveries refund amount now = elim (Option-cases (lookup id s.deliveries)) [
    | inl e ↦ inl (ground arith)
    | inr (d, e) ↦ elim (Bool-cases (is_over d.status)) [
      | inl f ↦ inl (ground arith)
      | inr f ↦ elim (Bool-cases (refund && is_paid d.payment_status)) [
        | inl g ↦ inr (
            inr (
              refund_status (leb d.total_price (amount_or_price amount d.total_price)),
              ground arith,
            ))
        | inr g ↦ inr (inl (ground arith))
      ]
    ]
  ]

  price-deliveries :
      (price : ℕ)
      → let t = (adjust_price id price s).1 in
        (t.deliveries ≡ s.deliveries) ⊎ (t.deliveries ≡ update id (priced price) s.deliveries)
  unfolding adjust_price
  price-deliveries price = ground arith

  refund-deliveries :
      (amount : ℕ) (full : Bool) (reference now : ℕ)
      → let t = (issue_refund id amount full reference now s).1 in
        (t.deliveries ≡ s.deliveries)
        ⊎ ((p : PaymentStatus) × (t.deliveries ≡ update id (with_payment_status p) s.deliveries))
  unfolding issue_refund note_refund
  refund-deliveries amount full reference now = elim (Option-cases (lookup id s.deliveries)) [
    | inl e ↦ inl (ground arith)
    | inr (d, e) ↦ elim (Bool-cases (is_refundable d.payment_status && leb amount d.total_price)) [
      | inl f ↦ inr (refund_status (full || leb d.total_price amount), ground arith)
      | inr f ↦ inl (ground arith)
    ]
  ]

  module _ (h : IsManned s) where
    pub admin_cancel-IsManned :
        (refund : Bool) (amount : Option ℕ) (now : ℕ)
        → IsManned (manual_cancel id refund amount now s).1
    admin_cancel-IsManned refund amount now =
        let t = (manual_cancel id refund amount now s).1 in
        let m = record s { deliveries = update id (cancelled_by_admin now) s.deliveries } in
        let cancelled : IsManned m =
          update-IsManned id (cancelled_by_admin now) s h (λ d e fits. tt) in
        elim (admin_cancel-deliveries refund amount now) [
          | inl e ↦ same-IsManned s t h e
          | inr w ↦ elim w [
            | inl e ↦ same-IsManned m t cancelled e
            | inr (p, e) ↦
                changed-IsManned id (with_payment_status p) m t cancelled (λ d e' fits. fits) e
          ]
        ]

    pub price-IsManned : (price : ℕ) → IsManned (adjust_price id price s).1
    price-IsManned price =
        let t = (adjust_price id price s).1 in
        elim (price-deliveries price) [
          | inl e ↦ same-IsManned s t h e
          | inr e ↦ changed-IsManned id (priced price) s t h (λ d e' fits. fits) e
        ]

    pub refund-IsManned :
        (amount : ℕ) (full : Bool) (reference now : ℕ)
        → IsManned (issue_refund id amount full reference now s).1
    refund-IsManned amount full reference now =
        let t = (issue_refund id amount full reference now s).1 in
        elim (refund-deliveries amount full reference now) [
          | inl e ↦ same-IsManned s t h e
          | inr (p, e) ↦ changed-IsManned id (with_payment_status p) s t h (λ d e' fits. fits) e
        ]

-- ===== src/Disputes/Writes.antt =====
-- What each request writes: nothing, one new dispute, or one change of one dispute.
use fastmotion_delivery.Base.{
  ℕ, ◌≡◌, ◌⊎◌, inl, inr, refl, false, not, ◌&&◌, some, [], ◌∷◌, ◌++◌, arith, ◌==◌, Option-cases,
  Bool-cases,
}
use fastmotion_delivery.Base.Dict.{lookup, update}
use fastmotion_delivery.Model.{Db, Delivery, Dispute, DisputeMessage, DisputeStatus}
use fastmotion_delivery.Disputes.Filing.{
  Complaint, create_dispute, add_dispute_message, update_dispute, store_dispute, new_dispute,
  can_create, has_complaint, refundable, is_closed, disputed, with_message, with_details,
  customer_message,
}
use fastmotion_delivery.Disputes.Support.{
  update_dispute_status, add_admin_message, assign_dispute, Decision, decided, taken_by,
  admin_message,
}
use fastmotion_delivery.Disputes.Requests.{CustomerWord, say, DisputeRequest, deal}

-- The dispute that a customer writes about, and the change that is asked for.
abbrev pub subject : CustomerWord → ℕ
subject (CustomerWord.message user id text attachments now) = id
subject (CustomerWord.change user id description attachments) = id

abbrev pub said : CustomerWord → Dispute → Dispute
said (CustomerWord.message user id text attachments now) =
    with_message (customer_message user text attachments now)
said (CustomerWord.change user id description attachments) = with_details description attachments

-- A word of a customer leaves the state, or changes a dispute that is not closed.
pub say-Writes :
    (w : CustomerWord) (s : Db)
    → ((say w s).1.disputes ≡ s.disputes)
      ⊎ ((x : Dispute) × (lookup (subject w) s.disputes ≡ some x)
          × (is_closed x.status ≡ false)
          × ((say w s).1.disputes ≡ update (subject w) (said w) s.disputes))
unfolding say add_dispute_message update_dispute
say-Writes (CustomerWord.message user id text attachments now) s =
    elim (Option-cases (lookup id s.disputes)) [
      | inl e ↦ inl (ground arith)
      | inr (x, e) ↦ elim (Bool-cases (x.customer == user && not (is_closed x.status))) [
        | inl g ↦ inr (x, e, ground arith, ground arith)
        | inr g ↦ inl (ground arith)
      ]
    ]
say-Writes (CustomerWord.change user id description attachments) s =
    elim (Option-cases (lookup id s.disputes)) [
      | inl e ↦ inl (ground arith)
      | inr (x, e) ↦ elim (Bool-cases (x.customer == user && not (is_closed x.status))) [
        | inl g ↦ inr (x, e, ground arith, ground arith)
        | inr g ↦ inl (ground arith)
      ]
    ]

-- The changes of single disputes.
pub data Change : (Dispute → Dispute) → Type 0 where
  customer : (w : CustomerWord) → Change (said w)
  decision : (admin text : ℕ) (v : Decision) (now : ℕ) → Change (decided admin text v now)
  answer : (m : DisputeMessage) → Change (with_message m)
  assignment : (admin now : ℕ) → Change (taken_by admin now)

-- A request leaves the disputes and deliveries, changes one dispute, or creates one.
pub data Wrote (s t : Db) : Type 0 where
  nothing : t.disputes ≡ s.disputes → t.deliveries ≡ s.deliveries → Wrote s t
  changed :
      (k : ℕ) (f : Dispute → Dispute)
      → Change f
      → t.disputes ≡ update k f s.disputes
      → t.deliveries ≡ s.deliveries
      → Wrote s t
  created :
      (k id : ℕ) (x : Dispute) (d : Delivery)
      → lookup id s.deliveries ≡ some d
      → has_complaint id s.disputes ≡ false
      → x.delivery_request ≡ id
      → x.status ≡ DisputeStatus.opened
      → t.disputes ≡ s.disputes ++ ((k, x) ∷ [])
      → t.deliveries ≡ update id disputed s.deliveries
      → Wrote s t

say-deliveries : (w : CustomerWord) (s : Db) → (say w s).1.deliveries ≡ s.deliveries
unfolding say add_dispute_message update_dispute
say-deliveries (CustomerWord.message user id text attachments now) s = ground arith
say-deliveries (CustomerWord.change user id description attachments) s = ground arith

deal-create :
    (user id dispute_id ticket now : ℕ) (c : Complaint) (s : Db)
    → let q = DisputeRequest.create user id dispute_id ticket c now in Wrote s (deal q s).1
unfolding deal create_dispute store_dispute can_create
deal-create user id dispute_id ticket now c s = elim (Option-cases (lookup id s.deliveries)) [
  | inl e ↦ Wrote.nothing (ground arith) (ground arith)
  | inr (d, e) ↦ elim (Bool-cases (can_create user id now d s.disputes)) [
    | inl g ↦
        Wrote.created dispute_id id
          (new_dispute user id ticket now c d.rider (refundable c.request_refund id s.payments)) d e
          (ground arith) refl refl (ground arith) (ground arith)
    | inr g ↦ Wrote.nothing (ground arith) (ground arith)
  ]
]

pub deal-Wrote : (q : DisputeRequest) (s : Db) → Wrote s (deal q s).1
unfolding deal update_dispute_status add_admin_message assign_dispute
deal-Wrote (DisputeRequest.create user id dispute_id ticket c now) s =
    deal-create user id dispute_id ticket now c s
deal-Wrote (DisputeRequest.customer w) s = elim (say-Writes w s) [
  | inl e ↦ Wrote.nothing e (say-deliveries w s)
  | inr (x, e, g, u) ↦ Wrote.changed (subject w) (said w) (Change.customer w) u (say-deliveries w s)
]
deal-Wrote (DisputeRequest.decide admin id text v now) s =
    elim (Option-cases (lookup id s.disputes)) [
      | inl e ↦ Wrote.nothing (ground arith) (ground arith)
      | inr (x, e) ↦
          Wrote.changed id (decided admin text v now) (Change.decision admin text v now)
            (ground arith) (ground arith)
    ]
deal-Wrote (DisputeRequest.answer admin id text attachments now) s =
    elim (Option-cases (lookup id s.disputes)) [
      | inl e ↦ Wrote.nothing (ground arith) (ground arith)
      | inr (x, e) ↦
          let m = admin_message admin text attachments now in
          Wrote.changed id (with_message m) (Change.answer m) (ground arith) (ground arith)
    ]
deal-Wrote (DisputeRequest.assign admin id now) s = elim (Option-cases (lookup id s.disputes)) [
  | inl e ↦ Wrote.nothing (ground arith) (ground arith)
  | inr (x, e) ↦
      Wrote.changed id (taken_by admin now) (Change.assignment admin now) (ground arith)
        (ground arith)
]

-- ===== src/Disputes/Filed.antt =====
-- What holds of all disputes, whatever customers and admins send.
use fastmotion_delivery.Base.{
  ℕ, ◌≡◌, ◌≢◌, inl, inr, refl, sym, ap, subst, ◌∙◌, true, false, some, [], ◌∷◌, ◌++◌, arith, ◌==◌,
  Bool-cases, is_some, ==→eq,
}
use fastmotion_delivery.Base.Dict.{
  Dict, lookup, update, Always, Always-update, Always-append, lookup-update_inv, lookup-append_inv,
  lookup-update_self, lookup-update_ne,
}
use fastmotion_delivery.Model.{Db, Delivery, Dispute, DisputeStatus}
use fastmotion_delivery.Disputes.Filing.{has_complaint, disputed}
use fastmotion_delivery.Disputes.Support.{is_resolved}
use fastmotion_delivery.Disputes.Requests.{CustomerWord, DisputeRequest, deal, Deals}
use fastmotion_delivery.Disputes.Writes.{Change, Wrote, deal-Wrote}

abbrev pub IsMarked : Dict Delivery → ℕ → Type 0
IsMarked es n = (d : Delivery) × (lookup n es ≡ some d) × (d.has_dispute ≡ true)

abbrev pub IsSigned : Dispute → Type 0
IsSigned x =
    is_resolved x.status ≡ true → (is_some x.resolved_at ≡ true) × (is_some x.resolved_by ≡ true)

-- A delivery has one dispute at most, a delivery with a dispute is marked, and a dispute that is
-- resolved has an admin and a time of its resolution.
pub record IsFiled (ds : Dict Dispute) (es : Dict Delivery) : Type 0 where
  pub single :
      (i j : ℕ) (x y : Dispute)
      → lookup i ds ≡ some x
      → lookup j ds ≡ some y
      → x.delivery_request ≡ y.delivery_request
      → i ≡ j
  pub marked : Always (λ i x. IsMarked es x.delivery_request) ds
  pub signed : Always (λ i x. IsSigned x) ds

Change-delivery_request :
    {f : Dispute → Dispute} → Change f → (x : Dispute) → (f x).delivery_request ≡ x.delivery_request
Change-delivery_request (Change.customer (CustomerWord.message user id text at now)) x = refl
Change-delivery_request (Change.customer (CustomerWord.change user id text at)) x = refl
Change-delivery_request (Change.decision admin text v now) x = refl
Change-delivery_request (Change.answer m) x = refl
Change-delivery_request (Change.assignment admin now) x = refl

Change-IsSigned : {f : Dispute → Dispute} → Change f → (x : Dispute) → IsSigned x → IsSigned (f x)
Change-IsSigned (Change.customer (CustomerWord.message user id text at now)) x h r = h r
Change-IsSigned (Change.customer (CustomerWord.change user id text at)) x h r = h r
Change-IsSigned (Change.decision admin text v now) x h r = ground arith
Change-IsSigned (Change.answer m) x h r = h r
Change-IsSigned (Change.assignment admin now) x h r = ground arith

-- Where the changed dispute comes from, and that it is about the same delivery.
came_from :
    (i k : ℕ) {f : Dispute → Dispute} (ds : Dict Dispute) {x : Dispute}
    → Change f
    → lookup i (update k f ds) ≡ some x
    → (v : Dispute) × (lookup i ds ≡ some v) × (x.delivery_request ≡ v.delivery_request)
came_from i k {f} ds c e =
    let (v, found, from) = lookup-update_inv i k f ds e in
    (
      v,
      found,
      elim from [
        | inl (ik, xf) ↦ ap (λ z. z.delivery_request) xf ∙ Change-delivery_request c v
        | inr (ne, xv) ↦ ap (λ z. z.delivery_request) xv
      ],
    )

changed-IsFiled :
    (k : ℕ) {f : Dispute → Dispute} (ds : Dict Dispute) (es : Dict Delivery)
    → Change f
    → IsFiled ds es
    → IsFiled (update k f ds) es
changed-IsFiled k {f} ds es c h = record {
  single = λ i j x y ei ej same.
      let (v, iv, xv) = came_from i k ds c ei in
      let (w, jw, yw) = came_from j k ds c ej in h.single i j v w iv jw (sym xv ∙ same ∙ yw);
  marked = λ i x e.
      let (v, found, xv) = came_from i k ds c e in
      subst (IsMarked es) (sym xv) (h.marked i v found);
  signed = Always-update (λ i x. IsSigned x) k f ds (λ x e p. Change-IsSigned c x p) h.signed;
}

-- A new mark leaves the others.
IsMarked-update :
    (id n : ℕ) (es : Dict Delivery) → IsMarked es n → IsMarked (update id disputed es) n
IsMarked-update id n es (d, found, m) = elim (Bool-cases (n == id)) [
  | inl same ↦
      let e = ==→eq n id same in
      (
        disputed d,
        subst (λ i. lookup n (update i disputed es) ≡ some (disputed d)) e
            (lookup-update_self n disputed es found),
        refl,
      )
  | inr other ↦ (d, lookup-update_ne n id disputed es (ground arith) ∙ found, m)
]

no_complaint :
    (id : ℕ) (ds : Dict Dispute)
    → has_complaint id ds ≡ false
    → Always (λ i x. x.delivery_request ≢ id) ds
unfolding has_complaint lookup
no_complaint id [] h i x e = cc
no_complaint id ((k, d) ∷ ds) h i x e = elim (Bool-cases (i == k)) [
  | inl here ↦ ground arith
  | inr there ↦ no_complaint id ds (ground arith) i x (ground arith)
]

created-IsFiled :
    (k id : ℕ) (x : Dispute) (d : Delivery) (ds : Dict Dispute) (es : Dict Delivery)
    → lookup id es ≡ some d
    → has_complaint id ds ≡ false
    → x.delivery_request ≡ id
    → x.status ≡ DisputeStatus.opened
    → IsFiled ds es
    → IsFiled (ds ++ ((k, x) ∷ [])) (update id disputed es)
created-IsFiled k id x d ds es found none_yet about opened h = record {
  single = λ i j v w ei ej same. elim (lookup-append_inv i k ds x v ei) [
    | inl io ↦ elim (lookup-append_inv j k ds x w ej) [
      | inl jo ↦ h.single i j v w io jo same
      | inr (jk, wx) ↦
          absurd
            (no_complaint id ds none_yet i v io (same ∙ ap (λ z. z.delivery_request) wx ∙ about))
    ]
    | inr (ik, vx) ↦ elim (lookup-append_inv j k ds x w ej) [
      | inl jo ↦
          absurd (
            no_complaint id ds none_yet j w jo (sym same ∙ ap (λ z. z.delivery_request) vx ∙ about))
      | inr (jk, wx) ↦ ik ∙ sym jk
    ]
  ];
  marked =
      Always-append (λ i y. IsMarked (update id disputed es) y.delivery_request) k x ds
        (λ i y e. IsMarked-update id y.delivery_request es (h.marked i y e))
        (subst (IsMarked (update id disputed es)) (sym about)
          (disputed d, lookup-update_self id disputed es found, refl));
  signed = Always-append (λ i y. IsSigned y) k x ds h.signed (λ r. ground arith);
}

deal-IsFiled :
    (q : DisputeRequest) (s : Db)
    → IsFiled s.disputes s.deliveries
    → IsFiled (deal q s).1.disputes (deal q s).1.deliveries
deal-IsFiled q s h = elim (deal-Wrote q s) [
  | Wrote.nothing a b ↦
      subst (λ ds. IsFiled ds (deal q s).1.deliveries) (sym a)
        (subst (λ es. IsFiled s.disputes es) (sym b) h)
  | Wrote.changed k f c a b ↦
      subst (λ ds. IsFiled ds (deal q s).1.deliveries) (sym a)
        (subst (λ es. IsFiled (update k f s.disputes) es) (sym b)
          (changed-IsFiled k s.disputes s.deliveries c h))
  | Wrote.created k id x d found fresh about opened a b ↦
      subst (λ ds. IsFiled ds (deal q s).1.deliveries) (sym a)
        (subst (λ es. IsFiled (s.disputes ++ ((k, x) ∷ [])) es) (sym b)
          (created-IsFiled k id x d s.disputes s.deliveries found fresh about opened h))
]

-- Whatever customers and admins send, in whatever order: a delivery has one dispute at most, a
-- delivery with a dispute is marked, and a dispute that is resolved has an admin and a time of its
-- resolution, if it was so at the start.
pub Deals-IsFiled :
    {s t : Db} → IsFiled s.disputes s.deliveries → Deals s t → IsFiled t.disputes t.deliveries
Deals-IsFiled h Deals.here = h
Deals-IsFiled h (Deals.next {t} r q) = deal-IsFiled q t (Deals-IsFiled h r)

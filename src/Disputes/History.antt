-- ===== src/Disputes/History.antt =====
-- What later requests leave of a dispute.
use fastmotion_delivery.Base.{
  ℕ, ◌≡◌, ◌≢◌, ◌⊎◌, inl, inr, refl, sym, ap, subst, ◌∙◌, true, some, List, [], ◌∷◌, ◌++◌, arith,
  ◌==◌, Bool-cases, ==→eq,
}
use fastmotion_delivery.Base.Dict.{
  Dict, lookup, update, lookup-update_self, lookup-update_ne, lookup-append_old,
}
use fastmotion_delivery.Model.{Db, Dispute, DisputeMessage, DisputeStatus}
use mathlib.Core.List.{append-nil, append_assoc}
use fastmotion_delivery.Disputes.Filing.{is_closed}
use fastmotion_delivery.Disputes.Requests.{CustomerWord, say, say_all, DisputeRequest, deal, Deals}
use fastmotion_delivery.Disputes.Writes.{Change, Wrote, deal-Wrote, say-Writes, subject, said}

say-closed :
    (w : CustomerWord) (i : ℕ) (x : Dispute) (s : Db)
    → lookup i s.disputes ≡ some x
    → is_closed x.status ≡ true
    → lookup i (say w s).1.disputes ≡ some x
say-closed w i x s e c = elim (say-Writes w s) [
  | inl u ↦ ap (lookup i) u ∙ e
  | inr (y, f, o, u) ↦
      let ne : i ≢ subject w = λ same. cc (ap (λ k. lookup k s.disputes) same, e, f, c, o) in
      ap (lookup i) u ∙ lookup-update_ne i (subject w) (said w) s.disputes ne ∙ e
]

ended-is_closed :
    (x : DisputeStatus)
    → (x ≡ DisputeStatus.resolved) ⊎ (x ≡ DisputeStatus.closed)
    → is_closed x ≡ true
ended-is_closed x (inl e) = rw e refl
ended-is_closed x (inr e) = rw e refl

said_closed :
    (ws : List CustomerWord) (i : ℕ) (x : Dispute) (s : Db)
    → lookup i s.disputes ≡ some x
    → is_closed x.status ≡ true
    → lookup i (say_all ws s).disputes ≡ some x
unfolding say_all
said_closed [] i x s e c = e
said_closed (w ∷ ws) i x s e c = said_closed ws i x (say w s).1 (say-closed w i x s e c) c

-- A dispute whose status is `resolved` or `closed` stays as it is, whatever customers send, and however
-- often.
pub closed_stays :
    (ws : List CustomerWord) (i : ℕ) (x : Dispute) (s : Db)
    → lookup i s.disputes ≡ some x
    → (x.status ≡ DisputeStatus.resolved) ⊎ (x.status ≡ DisputeStatus.closed)
    → lookup i (say_all ws s).disputes ≡ some x
closed_stays ws i x s e ended = said_closed ws i x s e (ended-is_closed x.status ended)

-- `y` is `x` some requests later.
pub record Continues (x y : Dispute) : Type 0 where
  pub delivery : y.delivery_request ≡ x.delivery_request
  pub customer : y.customer ≡ x.customer
  pub ticket : y.ticket_number ≡ x.ticket_number
  pub later : List DisputeMessage
  pub messages : y.messages ≡ x.messages ++ later

Continues-refl : (x : Dispute) → Continues x x
Continues-refl x = record {
  delivery = refl;
  customer = refl;
  ticket = refl;
  later = [];
  messages = sym (append-nil x.messages);
}

Continues-trans : {x y z : Dispute} → Continues x y → Continues y z → Continues x z
Continues-trans {x} c d = record {
  delivery = d.delivery ∙ c.delivery;
  customer = d.customer ∙ c.customer;
  ticket = d.ticket ∙ c.ticket;
  later = c.later ++ d.later;
  messages =
      d.messages ∙ ap (λ ms. ms ++ d.later) c.messages ∙ append_assoc x.messages c.later d.later;
}

said_more :
    (m : DisputeMessage) (x y : Dispute)
    → y.delivery_request ≡ x.delivery_request
    → y.customer ≡ x.customer
    → y.ticket_number ≡ x.ticket_number
    → y.messages ≡ x.messages ++ (m ∷ [])
    → Continues x y
said_more m x y d c t e = record {
  delivery = d;
  customer = c;
  ticket = t;
  later = m ∷ [];
  messages = e;
}

said_nothing :
    (x y : Dispute)
    → y.delivery_request ≡ x.delivery_request
    → y.customer ≡ x.customer
    → y.ticket_number ≡ x.ticket_number
    → y.messages ≡ x.messages
    → Continues x y
said_nothing x y d c t e = record {
  delivery = d;
  customer = c;
  ticket = t;
  later = [];
  messages = e ∙ sym (append-nil x.messages);
}

Change-Continues : {f : Dispute → Dispute} → Change f → (x : Dispute) → Continues x (f x)
Change-Continues (Change.customer (CustomerWord.message user id text at now)) x =
    said_more _ x _ refl refl refl refl
Change-Continues (Change.customer (CustomerWord.change user id text at)) x =
    said_nothing x _ refl refl refl refl
Change-Continues (Change.decision admin text v now) x = said_more _ x _ refl refl refl refl
Change-Continues (Change.answer m) x = said_more m x _ refl refl refl refl
Change-Continues (Change.assignment admin now) x = said_nothing x _ refl refl refl refl

-- What became of a dispute.
abbrev Kept : ℕ → Dispute → Dict Dispute → Type 0
Kept i x ds = (y : Dispute) × (lookup i ds ≡ some y) × Continues x y

update-Kept :
    (i k : ℕ) {f : Dispute → Dispute} (y : Dispute) (ds : Dict Dispute)
    → Change f
    → lookup i ds ≡ some y
    → Kept i y (update k f ds)
update-Kept i k {f} y ds c e = elim (Bool-cases (i == k)) [
  | inl same ↦ (
    f y,
    subst (λ j. lookup i (update j f ds) ≡ some (f y)) (==→eq i k same)
        (lookup-update_self i f ds e),
    Change-Continues c y,
  )
  | inr other ↦ (y, lookup-update_ne i k f ds (ground arith) ∙ e, Continues-refl y)
]

deal-Kept :
    (q : DisputeRequest) (i : ℕ) (y : Dispute) (s : Db)
    → lookup i s.disputes ≡ some y
    → Kept i y (deal q s).1.disputes
deal-Kept q i y s e = elim (deal-Wrote q s) [
  | Wrote.nothing a b ↦ (y, ap (lookup i) a ∙ e, Continues-refl y)
  | Wrote.changed k f c a b ↦ subst (Kept i y) (sym a) (update-Kept i k y s.disputes c e)
  | Wrote.created k id x d found fresh about opened a b ↦
      (y, ap (lookup i) a ∙ lookup-append_old i k s.disputes x e, Continues-refl y)
]

-- Whatever customers and admins send, a dispute stays, with its delivery, its customer and its ticket
-- number, and what was said in it stays, in its order: messages are only added at the end.
pub Deals-Continues :
    {s t : Db} (i : ℕ) (x : Dispute)
    → Deals s t
    → lookup i s.disputes ≡ some x
    → (y : Dispute) × (lookup i t.disputes ≡ some y) × Continues x y
Deals-Continues i x Deals.here e = (x, e, Continues-refl x)
Deals-Continues i x (Deals.next {t} r q) e =
    let (y, found, c) = Deals-Continues i x r e in
    let (z, found', d) = deal-Kept q i y t found in (z, found', Continues-trans c d)

-- ===== src/Customer/Owed.antt =====
-- What is asked back for one delivery, over any sequence of requests of customers.
use fastmotion_delivery.Base.{
  ℕ, ◌+◌, ◌≤◌, ◌≡◌, ◌⊎◌, inl, inr, refl, false, Option, none, some, List, [], ◌∷◌, ◌++◌, arith,
  Bool-cases, ◌==◌, if◌then◌else◌, ap, ==_refl,
}
use fastmotion_delivery.Base.Int.{ℤ, pos, ltb_ℤ, pos_part}
use fastmotion_delivery.Base.Dict.{lookup, update, lookup-update_self, lookup-update_ne}
use fastmotion_delivery.Model.{Db, Delivery, DeliveryStatus, Event, is_status, without_pins}
use fastmotion_delivery.Customer.Cancel.{
  own_delivery, cancel_delivery, cancel_stored, cancel_pending, refund_amount, cancellation_fee,
  to_rider, cancelled_by_customer,
}
use fastmotion_delivery.Customer.Refunds.{CanCancel, cancel_open, refund_of, refund_bounds}

-- What an event asks back for the delivery.
abbrev pub amount_for : (id : ℕ) → Event → ℕ
amount_for id (Event.refund_requested k _ amount) = if k == id then amount else 0
amount_for id _ = 0

unfoldable pub asked_back : (id : ℕ) → List Event → ℕ
asked_back id [] = 0
asked_back id (e ∷ es) = amount_for id e + asked_back id es

pub asked_back-append :
    (id : ℕ) (es fs : List Event) → asked_back id (es ++ fs) ≡ asked_back id es + asked_back id fs
unfolding asked_back
asked_back-append id [] fs = omega arith
asked_back-append id (e ∷ es) fs = omega (arith, asked_back-append id es fs)

pub asked_back-send :
    (id : ℕ) (es : List Event) (e : Event)
    → asked_back id (es ++ (e ∷ [])) ≡ asked_back id es + amount_for id e
unfolding asked_back
asked_back-send id [] e = omega arith
asked_back-send id (x ∷ es) e = omega (arith, asked_back-send id es e)

-- The delivery keeps its price. Nothing was asked back since, or it is cancelled and at most its price
-- was.
unfoldable pub IsOwed : (id before price : ℕ) → Db → Type 0
IsOwed id before price s =
    (d : Delivery) × (lookup id s.deliveries ≡ some d)
    × (d.total_price ≡ price)
    × ((asked_back id s.sent ≡ before)
        ⊎ ((d.status ≡ DeliveryStatus.cancelled) × (asked_back id s.sent ≤ before + price)))

to_rider-asked_back : (id j : ℕ) (rider : Option ℕ) → asked_back id (to_rider j rider) ≡ 0
unfolding asked_back
to_rider-asked_back id j none = refl
to_rider-asked_back id j (some r) = omega arith

pos_part-none : (z : ℤ) → ltb_ℤ (pos 0) z ≡ false → pos_part z ≡ 0
pos_part-none z e = ground arith

cancel_stored-asked_back :
    (id user j now : ℕ) (d : Delivery) (s : Db)
    → asked_back id (cancel_stored user j now d s).1.sent
      ≡ asked_back id s.sent + (if j == id then refund_of s.config d else 0)
unfolding cancel_stored
cancel_stored-asked_back id user j now d s =
    elim (Bool-cases (ltb_ℤ (pos 0) (refund_amount s.config d))) [
      | inl e ↦ rw e (simp (asked_back-send, asked_back-append, to_rider-asked_back) (omega arith))
      | inr e ↦ rw e (
          simp (asked_back-send, asked_back-append, to_rider-asked_back)
            (ground (arith, pos_part-none (refund_amount s.config d) e)))
    ]

cancel_stored-config :
    (user j now : ℕ) (d : Delivery) (s : Db) → (cancel_stored user j now d s).1.config ≡ s.config
unfolding cancel_stored
cancel_stored-config user j now d s = ground arith

pub cancel_stored-deliveries :
    (user j now : ℕ) (d : Delivery) (s : Db)
    → (cancel_stored user j now d s).1.deliveries
      ≡ update j (cancelled_by_customer now) s.deliveries
unfolding cancel_stored
cancel_stored-deliveries user j now d s = ground arith

-- A cancellation asks for the refund, and leaves the configuration.
pub cancel-asked_back :
    (user id now : ℕ) (d : Delivery) (s : Db)
    → CanCancel user id now d s
    → let t = (cancel_delivery user id now s).1 in
      (asked_back id t.sent ≡ asked_back id s.sent + refund_of s.config d) × (t.config ≡ s.config)
unfolding refund_amount cancellation_fee
cancel-asked_back user id now d s can = rw (cancel_open user id now d s can) (
  rw (==_refl id) at (cancel_stored-asked_back id user id now (without_pins d) s),
  cancel_stored-config user id now (without_pins d) s,
)

module _ (id before price : ℕ) where
  -- A delivery that stays as it was, with nothing more asked back.
  pub IsOwed-kept :
      (s t : Db)
      → IsOwed id before price s
      → lookup id t.deliveries ≡ lookup id s.deliveries
      → asked_back id t.sent ≡ asked_back id s.sent
      → IsOwed id before price t
  unfolding IsOwed
  IsOwed-kept s t h e f = ground arith

  -- So is one update of a delivery that leaves its price, and its status if it is cancelled.
  pub update-IsOwed :
      (j : ℕ) (f : Delivery → Delivery) (d : Delivery) (s t : Db)
      → IsOwed id before price s
      → lookup j s.deliveries ≡ some d
      → (f d).total_price ≡ d.total_price
      → (is_status d.status DeliveryStatus.cancelled ≡ false) ⊎ ((f d).status ≡ d.status)
      → t.deliveries ≡ update j f s.deliveries
      → asked_back id t.sent ≡ asked_back id s.sent
      → IsOwed id before price t
  unfolding IsOwed
  update-IsOwed j f d s t h e p c u a = elim (Bool-cases (j == id)) [
    | inl same ↦
        (f d, ground (arith, lookup-update_self j f s.deliveries e), ground arith, ground arith)
    | inr other ↦ IsOwed-kept s t h (ground (arith, lookup-update_ne id j f s.deliveries)) a
  ]

  cancelled-IsOwed :
      (user j now : ℕ) (d : Delivery) (s : Db)
      → IsOwed id before price s
      → CanCancel user j now d s
      → IsOwed id before price (cancel_stored user j now (without_pins d) s).1
  unfolding IsOwed
  cancelled-IsOwed user j now d s h can = elim (Bool-cases (j == id)) [
    | inl same ↦ (
      cancelled_by_customer now d,
      ground (
        arith,
        cancel_stored-deliveries user j now (without_pins d) s,
        lookup-update_self j (cancelled_by_customer now) s.deliveries can.0,
      ),
      ground arith,
      inr (
        refl,
        ground (
          arith,
          cancel_stored-asked_back id user j now (without_pins d) s,
          refund_bounds s.config (without_pins d),
        ),
      ),
    )
    | inr other ↦
        IsOwed-kept s (cancel_stored user j now (without_pins d) s).1 h
          (ground (
            arith,
            cancel_stored-deliveries user j now (without_pins d) s,
            lookup-update_ne id j (cancelled_by_customer now) s.deliveries,
          ))
          (ground (arith, cancel_stored-asked_back id user j now (without_pins d) s))
  ]

  pub cancel_cases :
      (user j now : ℕ) (s : Db)
      → let t = (cancel_delivery user j now s).1 in
        ((t.deliveries ≡ s.deliveries) × (t.sent ≡ s.sent))
        ⊎ ((d : Delivery) × CanCancel user j now d s)
  unfolding cancel_delivery cancel_pending own_delivery
  cancel_cases user j now s = ground arith

  pub cancel-IsOwed :
      (user j now : ℕ) (s : Db)
      → IsOwed id before price s
      → IsOwed id before price (cancel_delivery user j now s).1
  cancel-IsOwed user j now s h = elim (cancel_cases user j now s) [
    | inl (e, f) ↦
        IsOwed-kept s (cancel_delivery user j now s).1 h (ap (lookup id) e) (ap (asked_back id) f)
    | inr (d, can) ↦ rw (cancel_open user j now d s can) (cancelled-IsOwed user j now d s h can)
  ]

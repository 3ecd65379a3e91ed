-- ===== src/Rider/Ownership.antt =====
-- Who may act on a delivery, and who gets it.
use fastmotion_delivery.Base.{ℕ, ◌≡◌, ◌≢◌, ◌↔◌, refl, true, false, none, some, arith}
use fastmotion_delivery.Base.Int.{pos, ltb_ℤ}
use fastmotion_delivery.Base.Dict.{lookup, lookup-update_self, lookup-update_ne}
use fastmotion_delivery.Model.{
  Db, DeliveryStatus, Delivery, Rider, HttpError, is_ok, Refused, Untouched, is_verified,
}
use fastmotion_delivery.Rider.Commission.{get_commission_config}
use fastmotion_delivery.Rider.Accept.{
  is_rider, is_searching, accept_check, accept_commit, accept_delivery, accepted_by,
}
use fastmotion_delivery.Rider.Progress.{
  update_delivery_status, arrived_at_pickup, arrived_at_dropoff,
}
use fastmotion_delivery.Rider.Pins.{verify_pickup_pin, verify_delivery_pin}

-- A rider who is not assigned to a delivery is refused with `Forbidden` by each of the five requests
-- that move a delivery on, and nothing is written.
pub strangers_forbidden :
    (rider id pin p q now new_id : ℕ) (new : DeliveryStatus) (s : Db) (d : Delivery)
    → lookup id s.deliveries ≡ some d
    → is_rider d.rider rider ≡ false
    → Refused HttpError.forbidden s (update_delivery_status rider id new now s)
      × Refused HttpError.forbidden s (verify_pickup_pin rider id pin s)
      × Refused HttpError.forbidden s (verify_delivery_pin rider id pin now new_id s)
      × Refused HttpError.forbidden s (arrived_at_pickup rider id p q now s)
      × Refused HttpError.forbidden s (arrived_at_dropoff rider id now s)
unfolding update_delivery_status verify_pickup_pin verify_delivery_pin arrived_at_pickup
    arrived_at_dropoff
strangers_forbidden rider id pin p q now new_id new s d e h = ground arith

-- The document of a rider who may accept: verified, online and below the capacity.
abbrev pub CanAccept : Rider → Type 0
CanAccept doc =
    (is_verified doc.verification_status ≡ true)
    × (doc.is_online ≡ true)
    × (ltb_ℤ doc.current_delivery_count (pos doc.max_concurrent_deliveries) ≡ true)

-- An acceptance succeeds exactly when the rider may accept and the delivery is there, is searching
-- or pending, and has no rider.
pub accept_iff :
    (rider : ℕ) (doc : Rider) (id now : ℕ) (s : Db)
    → (is_ok (accept_delivery rider doc id now s).0 ≡ true) ↔ (
        CanAccept doc
        × ((d : Delivery) × (lookup id s.deliveries ≡ some d)
            × (is_searching d.status ≡ true)
            × (d.rider ≡ none)))
unfolding accept_delivery accept_check accept_commit get_commission_config
accept_iff rider doc id now s = ground arith

-- An acceptance that succeeds puts the rider on the delivery, in the state `rider_accepted`, and
-- leaves every other delivery as it was.
pub accept_assigns :
    (rider : ℕ) (doc : Rider) (id now : ℕ) (s : Db) (d : Delivery)
    → lookup id s.deliveries ≡ some d
    → is_ok (accept_delivery rider doc id now s).0 ≡ true
    → let t = (accept_delivery rider doc id now s).1 in
      (lookup id t.deliveries ≡ some (accepted_by rider now d))
      × ((j : ℕ) → j ≢ id → lookup j t.deliveries ≡ lookup j s.deliveries)
unfolding accept_delivery accept_check accept_commit get_commission_config
accept_assigns rider doc id now s d e h =
    let self = lookup-update_self id (accepted_by rider now) s.deliveries e in
    (
      ground (arith, self),
      λ j ne. ground (arith, lookup-update_ne j id (accepted_by rider now) s.deliveries ne),
    )

assigned_refused :
    (rider r2 : ℕ) (doc : Rider) (id now : ℕ) (t : Db) (d : Delivery)
    → lookup id t.deliveries ≡ some d
    → d.rider ≡ some rider
    → Untouched t (accept_delivery r2 doc id now t)
unfolding accept_delivery accept_check
assigned_refused rider r2 doc id now t d e h = ground arith

-- Once a rider has accepted a delivery, every later acceptance of it is refused and writes nothing.
pub accept_exclusive :
    (r1 r2 : ℕ) (doc1 doc2 : Rider) (id now later : ℕ) (s : Db)
    → is_ok (accept_delivery r1 doc1 id now s).0 ≡ true
    → let t = (accept_delivery r1 doc1 id now s).1 in
      Untouched t (accept_delivery r2 doc2 id later t)
accept_exclusive r1 r2 doc1 doc2 id now later s h =
    let (can, (d, e, _, _)) = (accept_iff r1 doc1 id now s).0 h in
    assigned_refused r1 r2 doc2 id later _ (accepted_by r1 now d)
      (accept_assigns r1 doc1 id now s d e h).0 refl

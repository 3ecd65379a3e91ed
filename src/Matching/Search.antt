-- ===== src/Matching/Search.antt =====
-- apps/user-api/src/delivery/rider-matching.service.ts: the search for riders of a quick delivery.
use fastmotion_delivery.Base.{
  ℕ, Bool, true, false, not, ◌&&◌, Option, none, some, List, [], ◌∷◌, leb, if◌then◌else◌, take,
}
use fastmotion_delivery.Base.Int.{pos, ltb_ℤ}
use fastmotion_delivery.Base.Dict.{Dict, erase}
use fastmotion_delivery.Model.{
  Db, Delivery, DeliveryStatus, Rider, Handler, Event, ⊤, modify, send, update_delivery, is_paid,
  is_verified, ◌>>◌,
}
use fastmotion_delivery.Earnings.{compute_rider_payout, config_rate, config_min}
use fastmotion_delivery.Matching.Store.{max_riders, filter_by_cooldown, delete_matching_state}

-- The query of `findNearbyRiders`, and its radius of 15 km. `distance` is the distance of a rider to
-- the pickup in metres, and nothing for a rider without a position.
abbrev pub is_candidate : (distance : ℕ → Option ℕ) → ℕ → Rider → Bool
is_candidate distance k r =
    r.is_online
    && (is_verified r.verification_status
        && (not r.is_suspended
            && (r.is_active
                && (ltb_ℤ r.current_delivery_count (pos r.max_concurrent_deliveries)
                    && (elim (distance k) [ none ↦ false | some m ↦ leb m 15_000 ])))))

abbrev pub metres : (distance : ℕ → Option ℕ) → ℕ → ℕ
metres distance k = elim (distance k) [ none ↦ 0 | some m ↦ m ]

unfoldable pub candidates : (distance : ℕ → Option ℕ) → Dict Rider → List ℕ
candidates distance [] = []
candidates distance ((k, r) ∷ rs) =
    if is_candidate distance k r then k ∷ candidates distance rs else candidates distance rs

-- `sort((a, b) => a.distanceKm - b.distanceKm)`, which is stable
unfoldable pub insert_by : (ℕ → ℕ) → ℕ → List ℕ → List ℕ
insert_by key k [] = k ∷ []
insert_by key k (x ∷ xs) = if leb (key k) (key x) then k ∷ (x ∷ xs) else x ∷ insert_by key k xs

unfoldable pub sort_by : (ℕ → ℕ) → List ℕ → List ℕ
sort_by key [] = []
sort_by key (x ∷ xs) = insert_by key x (sort_by key xs)

-- `findNearbyRiders`
unfoldable pub find_nearby_riders : (distance : ℕ → Option ℕ) → Dict Rider → List ℕ
find_nearby_riders distance rs = sort_by (metres distance) (candidates distance rs)

abbrev pub cancelled_by_system : ℕ → Delivery → Delivery
cancelled_by_system now d = record d { status = DeliveryStatus.cancelled; cancelled_at = some now }

-- `handleUnpaidExhausted`
unfoldable pub handle_unpaid_exhausted : (id now : ℕ) → Delivery → Handler ⊤
handle_unpaid_exhausted id now d = do
  delete_matching_state id
  send (Event.exhausted_cancelled id)
  update_delivery id (cancelled_by_system now)
  send (Event.status_update id DeliveryStatus.cancelled)
  send (Event.system_chat id)
  send (Event.push_customer d.customer)
  modify λ s. record s { deliveries = erase id s.deliveries }

-- A search that found nobody.
abbrev pub nobody_found : (id now : ℕ) → Delivery → Handler ⊤
nobody_found id now d s = elim (is_paid d.payment_status) [
  | true ↦ send (Event.exhausted_retrying id) s
  | false ↦ handle_unpaid_exhausted id now d s
]

-- `computeRiderPayout` of the matching service.
abbrev pub offered_payout : Delivery → Db → ℕ
offered_payout d s =
    compute_rider_payout d.total_price (config_rate 8000 s.config) (config_min s.config)

-- `sendRequestToRider`, without the push to the rider's phone
abbrev pub send_request : (rider id index total : ℕ) → Delivery → Handler ⊤
send_request rider id index total d s =
    (send (Event.new_request rider id (offered_payout d s))
        >> send (Event.request_sent id index total))
      s

-- The riders who are asked: the nearest ones that are not in a cooldown, ten at most.
unfoldable pub riders_to_ask : (distance : ℕ → Option ℕ) (now : ℕ) → Delivery → Db → List ℕ
riders_to_ask distance now d s =
    take max_riders
      (filter_by_cooldown d.customer now s.cooldowns (find_nearby_riders distance s.riders))

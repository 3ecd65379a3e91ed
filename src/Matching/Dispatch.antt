-- ===== src/Matching/Dispatch.antt =====
-- apps/user-api/src/delivery/rider-matching.service.ts: riders are asked in turn, until one accepts
-- or all have declined or let the request time out.
use fastmotion_delivery.Base.{
  ℕ, ◌+◌, ◌*◌, Bool, true, false, not, ◌&&◌, Option, none, some, List, [], ◌∷◌, leb, if◌then◌else◌,
  is_some, get_elem?, length,
}
use fastmotion_delivery.Base.Dict.{Dict, lookup}
use fastmotion_delivery.Model.{
  Delivery, DeliveryStatus, MatchingState, Handler, Event, ⊤, pure, gets, when, send,
  update_delivery, is_paid, is_quick, is_status, ◌>>=◌, ◌>>◌,
}
use fastmotion_delivery.Matching.Store.{
  set_cooldown, init_matching_state, get_matching_state, advance_to_next_rider, is_active_match,
  delete_matching_state, request_timeout_sec,
}
use fastmotion_delivery.Matching.Search.{
  riders_to_ask, nobody_found, send_request, handle_unpaid_exhausted,
}

-- The first of the riders is asked.
abbrev pub ask_first : (id now : ℕ) → Delivery → List ℕ → Handler ⊤
ask_first id now d [] = nobody_found id now d
ask_first id now d (r ∷ rs) =
    init_matching_state id d.customer (r ∷ rs) now >> send_request r id 1 (length (r ∷ rs)) d

-- `handleQuickDeliveryCreated`
unfoldable pub handle_quick_delivery_created : (distance : ℕ → Option ℕ) (id now : ℕ) → Handler ⊤
handle_quick_delivery_created distance id now s = elim (lookup id s.deliveries) [
  | none ↦ pure tt s
  | some d ↦ ask_first id now d (riders_to_ask distance now d s) s
]

abbrev pub searching : Delivery → Delivery
searching d = record d { status = DeliveryStatus.searching_rider }

-- A quick delivery that is paid for and has no rider.
abbrev pub starts_search : Delivery → Bool
starts_search d =
    is_quick d.delivery_type
    && (is_status d.status DeliveryStatus.payment_confirmed && not (is_some d.rider))

-- `handlePaymentCompleted`
unfoldable pub handle_payment_completed : (distance : ℕ → Option ℕ) (id now : ℕ) → Handler ⊤
handle_payment_completed distance id now s = elim (lookup id s.deliveries) [
  | none ↦ pure tt s
  | some d ↦
      when (starts_search d)
        (update_delivery id searching
          >> send (Event.status_update id DeliveryStatus.searching_rider)
          >> handle_quick_delivery_created distance id now)
        s
]

-- The next rider, or the end of the search.
abbrev pub ask_next : (id now : ℕ) → Delivery → Option MatchingState → Handler ⊤
ask_next id now d none s = elim (is_paid d.payment_status) [
  | true ↦ (delete_matching_state id >> send (Event.exhausted_retrying id)) s
  | false ↦ handle_unpaid_exhausted id now d s
]
ask_next id now d (some m) s = elim (get_elem? m.rider_ids m.rider_index) [
  | none ↦ pure tt s
  | some r ↦ elim (lookup r s.riders) [
    | none ↦ pure tt s
    | some _ ↦ send_request r id (m.rider_index + 1) (length m.rider_ids) d s
  ]
]

-- What the customer is told of the rider who was asked.
abbrev pub tell_previous : (id now : ℕ) (timeout : Bool) → Handler ⊤
tell_previous id now timeout s = elim (get_matching_state id now s) [
  | none ↦ pure tt s
  | some m ↦
      send
        (if timeout
          then Event.request_timeout id (m.rider_index + 1) (length m.rider_ids)
          else Event.request_rejected id (m.rider_index + 1) (length m.rider_ids))
        s
]

-- `advanceToNextRiderAndNotify`
unfoldable pub advance_and_notify : (id now : ℕ) (timeout : Bool) → Handler ⊤
advance_and_notify id now timeout s = elim (lookup id s.deliveries) [
  | none ↦ pure tt s
  | some d ↦
      if is_some d.rider
      then pure tt s
      else (do tell_previous id now timeout; m ← advance_to_next_rider id now; ask_next id now d m)
          s
]

-- The events `rider_rejected` and `rider_accepted` of the rider service.
unfoldable pub on_rider_rejected : (id rider customer now : ℕ) → Handler ⊤
on_rider_rejected id rider customer now =
    set_cooldown rider customer now >> advance_and_notify id now false

unfoldable pub on_rider_accepted : (id : ℕ) → Handler ⊤
on_rider_accepted id = delete_matching_state id

-- One turn of the loop of `checkMatchingTimeouts`.
unfoldable pub check_timeout : (now id : ℕ) → Handler ⊤
check_timeout now id s = elim (get_matching_state id now s) [
  | none ↦ pure tt s
  | some m ↦
      if is_active_match m.status && leb (m.sent_at + request_timeout_sec * 1000) now
      then advance_and_notify id now true s
      else pure tt s
]

unfoldable pub each : {A : Type 0} → (A → Handler ⊤) → List A → Handler ⊤
each f [] s = (pure tt) s
each f (x ∷ xs) s = (f x >> each f xs) s

-- `checkMatchingTimeouts`
unfoldable pub check_matching_timeouts : (now : ℕ) → Handler ⊤
check_matching_timeouts now = do ids ← gets (λ s. s.matching_ids); each (check_timeout now) ids

-- The query of `retryPaidExhaustedDeliveries`
unfoldable pub paid_searching : Dict Delivery → List ℕ
paid_searching [] = []
paid_searching ((k, d) ∷ ds) =
    if is_status d.status DeliveryStatus.searching_rider
      && (is_paid d.payment_status && (not (is_some d.rider) && is_quick d.delivery_type))
    then k ∷ paid_searching ds
    else paid_searching ds

abbrev pub retry_one : (distance : ℕ → ℕ → Option ℕ) (now id : ℕ) → Handler ⊤
retry_one distance now id s = elim (get_matching_state id now s) [
  | some _ ↦ pure tt s
  | none ↦ handle_quick_delivery_created (distance id) id now s
]

-- `retryPaidExhaustedDeliveries`; `distance` is the distance of a rider to the pickup of a delivery.
unfoldable pub retry_paid_exhausted : (distance : ℕ → ℕ → Option ℕ) (now : ℕ) → Handler ⊤
retry_paid_exhausted distance now = do
  ids ← gets (λ s. paid_searching s.deliveries)
  each (retry_one distance now) ids

-- What sets a search in motion.
pub data Turn : Type 0 where
  created paid : (distance : ℕ → Option ℕ) (id : ℕ) → Turn
  rejected : (id rider customer : ℕ) → Turn
  accepted : (id : ℕ) → Turn
  tick : Turn
  retry : (distance : ℕ → ℕ → Option ℕ) → Turn

unfoldable pub turn : (now : ℕ) → Turn → Handler ⊤
turn now (Turn.created distance id) = handle_quick_delivery_created distance id now
turn now (Turn.paid distance id) = handle_payment_completed distance id now
turn now (Turn.rejected id rider customer) = on_rider_rejected id rider customer now
turn now (Turn.accepted id) = on_rider_accepted id
turn now Turn.tick = check_matching_timeouts now
turn now (Turn.retry distance) = retry_paid_exhausted distance now

-- ===== src/System/BySearch.antt =====
-- apps/user-api/src/delivery/rider-matching.service.ts: what the search for riders does to the riders
-- of the deliveries.
use fastmotion_delivery.Base.{
  ℕ, ◌≡◌, inl, inr, refl, sym, ap, ◌∙◌, Bool, true, false, none, some, Option, List, [], ◌∷◌, arith,
  Option-cases, Bool-cases, is_some,
}
use mathlib.Core.Option.{some-injective}
use fastmotion_delivery.Base.Dict.{lookup, update, erase, lookup-erase_inv}
use fastmotion_delivery.Model.{
  Db, Delivery, DeliveryStatus, MatchingState, Event, Handler, ⊤, Preserves, Preserves-bind,
  is_paid, send, update_delivery, ◌>>=◌, ◌>>◌,
}
use fastmotion_delivery.Matching.{
  handle_unpaid_exhausted, cancelled_by_system, advance_to_next_rider, riders_to_ask,
  handle_quick_delivery_created, handle_payment_completed, advance_and_notify, on_rider_rejected,
  on_rider_accepted, check_timeout, check_matching_timeouts, each, retry_paid_exhausted, retry_one,
  paid_searching, tell_previous, ask_next, ask_first, nobody_found, searching, starts_search, Turn,
  turn,
}
use fastmotion_delivery.Rider.Workflow.Manned.{RiderRides, IsManned}
use fastmotion_delivery.System.Writes.{same-IsManned, changed-IsManned}

erase-IsManned :
    (id : ℕ) (s t : Db) → IsManned s → t.deliveries ≡ erase id s.deliveries → IsManned t
erase-IsManned id s t h e j d f =
    h j d (lookup-erase_inv j id s.deliveries (sym (ap (lookup j) e) ∙ f))

exhausted-Preserves :
    (id now : ℕ) (d : Delivery) → Preserves IsManned (handle_unpaid_exhausted id now d)
unfolding handle_unpaid_exhausted
exhausted-Preserves id now d s h =
    let m = record s { deliveries = update id (cancelled_by_system now) s.deliveries } in
    erase-IsManned id m (handle_unpaid_exhausted id now d s).1
      (changed-IsManned id (cancelled_by_system now) s m h (λ v e fits. tt) refl) refl

tell-Preserves : (id now : ℕ) (timeout : Bool) → Preserves IsManned (tell_previous id now timeout)
tell-Preserves id now timeout s h =
    same-IsManned s (tell_previous id now timeout s).1 h (ground arith)

advance-Preserves : (id now : ℕ) → Preserves IsManned (advance_to_next_rider id now)
unfolding advance_to_next_rider
advance-Preserves id now s h = same-IsManned s (advance_to_next_rider id now s).1 h (ground arith)

next-Preserves :
    (id now : ℕ) (d : Delivery) (o : Option MatchingState)
    → Preserves IsManned (ask_next id now d o)
next-Preserves id now d none s h = elim (Bool-cases (is_paid d.payment_status)) [
  | inl e ↦ same-IsManned s (ask_next id now d none s).1 h (ground arith)
  | inr e ↦ rw (e, ask_next) (exhausted-Preserves id now d s h)
]
next-Preserves id now d (some m) s h =
    same-IsManned s (ask_next id now d (some m) s).1 h (ground arith)

notify-Preserves :
    (id now : ℕ) (timeout : Bool) → Preserves IsManned (advance_and_notify id now timeout)
unfolding advance_and_notify
notify-Preserves id now timeout s h = elim (Option-cases (lookup id s.deliveries)) [
  | inl e ↦ rw (e, advance_and_notify) h
  | inr (d, e) ↦ elim (Bool-cases (is_some d.rider)) [
    | inl f ↦ rw (e, advance_and_notify) (rw f h)
    | inr f ↦
        let rest =
          Preserves-bind IsManned (tell_previous id now timeout)
            (λ _. advance_to_next_rider id now >>= λ o. ask_next id now d o)
            (tell-Preserves id now timeout)
            (λ _.
              Preserves-bind IsManned (advance_to_next_rider id now) (λ o. ask_next id now d o)
                (advance-Preserves id now) (next-Preserves id now d))
            s h in
        rw (e, advance_and_notify) (rw f rest)
  ]
]

first-Preserves :
    (id now : ℕ) (d : Delivery) (rs : List ℕ) → Preserves IsManned (ask_first id now d rs)
first-Preserves id now d [] s h = elim (Bool-cases (is_paid d.payment_status)) [
  | inl e ↦ same-IsManned s (ask_first id now d [] s).1 h (ground arith)
  | inr e ↦ rw (e, ask_first, nobody_found) (exhausted-Preserves id now d s h)
]
first-Preserves id now d (r ∷ rs) s h = h

quick-Preserves :
    (distance : ℕ → Option ℕ) (id now : ℕ)
    → Preserves IsManned (handle_quick_delivery_created distance id now)
unfolding handle_quick_delivery_created
quick-Preserves distance id now s h = elim (Option-cases (lookup id s.deliveries)) [
  | inl e ↦ rw (e, handle_quick_delivery_created) h
  | inr (d, e) ↦
      rw (e, handle_quick_delivery_created)
        (first-Preserves id now d (riders_to_ask distance now d s) s h)
]

searching-RiderRides :
    (d : Delivery) → starts_search d ≡ true → RiderRides (searching d).status (searching d).rider
searching-RiderRides d h = ground arith

completed-Preserves :
    (distance : ℕ → Option ℕ) (id now : ℕ)
    → Preserves IsManned (handle_payment_completed distance id now)
unfolding handle_payment_completed
completed-Preserves distance id now s h = elim (Option-cases (lookup id s.deliveries)) [
  | inl e ↦ rw (e, handle_payment_completed) h
  | inr (d, e) ↦ elim (Bool-cases (starts_search d)) [
    | inr f ↦ rw (e, handle_payment_completed) (rw f h)
    | inl f ↦
        let start =
          update_delivery id searching
          >> send (Event.status_update id DeliveryStatus.searching_rider) in
        let begun : IsManned (start s).1 =
          changed-IsManned id searching s (start s).1 h
            (λ v g fits.
              searching-RiderRides v (ap starts_search (some-injective v d (sym g ∙ e)) ∙ f))
            refl in
        rw (e, handle_payment_completed) (rw f (quick-Preserves distance id now (start s).1 begun))
  ]
]

timeout-Preserves : (now id : ℕ) → Preserves IsManned (check_timeout now id)
unfolding check_timeout
timeout-Preserves now id s h = ground (arith, h, notify-Preserves id now true s h)

retry-Preserves :
    (distance : ℕ → ℕ → Option ℕ) (now id : ℕ) → Preserves IsManned (retry_one distance now id)
retry-Preserves distance now id s h = ground (arith, h, quick-Preserves (distance id) id now s h)

each-Preserves :
    {A : Type 0} (f : A → Handler ⊤)
    → ((x : A) → Preserves IsManned (f x))
    → (xs : List A) → Preserves IsManned (each f xs)
unfolding each
each-Preserves f k [] s h = h
each-Preserves f k (x ∷ xs) s h =
    Preserves-bind IsManned (f x) (λ _. each f xs) (k x) (λ _. each-Preserves f k xs) s h

pub turn-IsManned : (now : ℕ) (t : Turn) (s : Db) → IsManned s → IsManned (turn now t s).1
unfolding turn on_rider_rejected on_rider_accepted check_matching_timeouts retry_paid_exhausted
turn-IsManned now (Turn.created distance id) s h = quick-Preserves distance id now s h
turn-IsManned now (Turn.paid distance id) s h = completed-Preserves distance id now s h
turn-IsManned now (Turn.rejected id rider customer) s h = notify-Preserves id now false _ h
turn-IsManned now (Turn.accepted id) s h = h
turn-IsManned now Turn.tick s h =
    each-Preserves (check_timeout now) (timeout-Preserves now) s.matching_ids s h
turn-IsManned now (Turn.retry distance) s h =
    each-Preserves (retry_one distance now) (retry-Preserves distance now)
      (paid_searching s.deliveries) s h

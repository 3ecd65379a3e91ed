-- ===== src/Matching/Turns.antt =====
-- The searches of apps/user-api/src/delivery/rider-matching.service.ts under whatever sets them in
-- motion.
use fastmotion_delivery.Base.{
  ℕ, ◌+◌, ◌<◌, ◌≡◌, sym, subst, ◌∙◌, inl, inr, Bool, true, false, Option, none, some, List, [], ◌∷◌,
  arith, leb, length, Bool-cases, Option-cases,
}
use mathlib.Core.Option.{some-injective}
use fastmotion_delivery.Base.Dict.{
  Dict, lookup, erase, put, Always, Always-update, lookup-append_inv, lookup-erase_inv,
}
use fastmotion_delivery.Model.{
  Db, Delivery, MatchingState, DeliveryStatus, Event, is_paid, Handler, Preserves, Preserves-bind,
  ⊤, send, update_delivery, ◌>>=◌, ◌>>◌,
}
use fastmotion_delivery.Matching.Store.{
  get_matching_state, advance_to_next_rider, is_active_match, initial_state, exhaust, next_rider,
}
use fastmotion_delivery.Matching.Search.{riders_to_ask, handle_unpaid_exhausted}
use fastmotion_delivery.Matching.Dispatch.{
  handle_quick_delivery_created, handle_payment_completed, advance_and_notify, on_rider_rejected,
  on_rider_accepted, check_timeout, check_matching_timeouts, each, retry_paid_exhausted, retry_one,
  paid_searching, tell_previous, ask_next, ask_first, searching, Turn, turn,
}

-- The rider who is asked is one of the riders.
abbrev pub IsInRange : MatchingState → Type 0
IsInRange m = is_active_match m.status ≡ true → m.rider_index < length m.rider_ids

abbrev pub AllInRange : Db → Type 0
AllInRange s = Always (λ _ m. IsInRange m) s.matching

put-Always :
    (k : ℕ) (m : MatchingState) (d : Dict MatchingState)
    → IsInRange m
    → Always (λ _ m. IsInRange m) d
    → Always (λ _ m. IsInRange m) (put k m d)
put-Always k m d h a j w e = elim (lookup-append_inv j k (erase k d) m w e) [
  | inl old ↦ a j w (lookup-erase_inv j k d old)
  | inr (_, wm) ↦ subst IsInRange (sym wm) h
]

erase-Always :
    (k : ℕ) (d : Dict MatchingState)
    → Always (λ _ m. IsInRange m) d
    → Always (λ _ m. IsInRange m) (erase k d)
erase-Always k d a j w e = a j w (lookup-erase_inv j k d e)

get-lookup :
    (id now : ℕ) (s : Db) (m : MatchingState)
    → get_matching_state id now s ≡ some m
    → lookup id s.matching ≡ some m
unfolding get_matching_state
get-lookup id now s m e = ground arith

advance-AllInRange :
    (id now : ℕ) (s : Db) → AllInRange s → AllInRange (advance_to_next_rider id now s).1
unfolding advance_to_next_rider
advance-AllInRange id now s a = elim (Option-cases (get_matching_state id now s)) [
  | inl e ↦ ground arith
  | inr (m, e) ↦ elim (Bool-cases (leb (length m.rider_ids) (m.rider_index + 1))) [
    | inl last ↦ ground (
      arith,
      Always-update (λ _ m. IsInRange m) id exhaust s.matching (λ v _ _ h. ground arith) a,
    )
    | inr more ↦
        let same : (v : MatchingState) → lookup id s.matching ≡ some v → v ≡ m =
          λ v f. some-injective v m (sym f ∙ get-lookup id now s m e) in
        ground (
          arith,
          Always-update (λ _ m. IsInRange m) id (next_rider now) s.matching
              (λ v f _ h. let q = same v f in ground arith) a,
        )
  ]
]

abbrev Keeps : {A : Type 0} → Handler A → Type 0
Keeps m = Preserves AllInRange m

tell_previous-Keeps : (id now : ℕ) (timeout : Bool) → Keeps (tell_previous id now timeout)
tell_previous-Keeps id now timeout s a = ground arith

handle_unpaid_exhausted-Keeps :
    (id now : ℕ) (d : Delivery) → Keeps (handle_unpaid_exhausted id now d)
unfolding handle_unpaid_exhausted
handle_unpaid_exhausted-Keeps id now d s a = erase-Always id s.matching a

ask_next-Keeps :
    (id now : ℕ) (d : Delivery) (o : Option MatchingState) → Keeps (ask_next id now d o)
ask_next-Keeps id now d none s a = elim (Bool-cases (is_paid d.payment_status)) [
  | inl e ↦ ground (arith, erase-Always id s.matching a)
  | inr e ↦ ground (arith, handle_unpaid_exhausted-Keeps id now d s a)
]
ask_next-Keeps id now d (some m) s a = ground arith

advance_and_notify-Keeps : (id now : ℕ) (timeout : Bool) → Keeps (advance_and_notify id now timeout)
unfolding advance_and_notify
advance_and_notify-Keeps id now timeout s a = elim (Option-cases (lookup id s.deliveries)) [
  | inl e ↦ ground arith
  | inr (d, e) ↦
      let rest =
        Preserves-bind AllInRange (tell_previous id now timeout)
          (λ _. advance_to_next_rider id now >>= λ o. ask_next id now d o)
          (tell_previous-Keeps id now timeout)
          (λ _.
            Preserves-bind AllInRange (advance_to_next_rider id now) (λ o. ask_next id now d o)
              (advance-AllInRange id now) (ask_next-Keeps id now d))
          s a in
      ground arith
]

handle_quick-Keeps :
    (distance : ℕ → Option ℕ) (id now : ℕ) → Keeps (handle_quick_delivery_created distance id now)
unfolding handle_quick_delivery_created
handle_quick-Keeps distance id now s a = elim (Option-cases (lookup id s.deliveries)) [
  | inl e ↦ ground arith
  | inr (d, e) ↦
      let rest = ask_first-Keeps id now d (riders_to_ask distance now d s) s a in ground arith
]
  where
    ask_first-Keeps : (id now : ℕ) (d : Delivery) (rs : List ℕ) → Keeps (ask_first id now d rs)
    ask_first-Keeps id now d [] s a = ground (arith, handle_unpaid_exhausted-Keeps id now d s a)
    ask_first-Keeps id now d (r ∷ rs) s a =
        put-Always id (initial_state d.customer (r ∷ rs) now) s.matching (λ _. ground arith) a

each-Keeps :
    {A : Type 0} (f : A → Handler ⊤) → ((x : A) → Keeps (f x)) → (xs : List A) → Keeps (each f xs)
unfolding each
each-Keeps f k [] s a = a
each-Keeps f k (x ∷ xs) s a =
    Preserves-bind AllInRange (f x) (λ _. each f xs) (k x) (λ _. each-Keeps f k xs) s a

payment_completed-Keeps :
    (distance : ℕ → Option ℕ) (id now : ℕ) → Keeps (handle_payment_completed distance id now)
unfolding handle_payment_completed
payment_completed-Keeps distance id now s a = elim (Option-cases (lookup id s.deliveries)) [
  | inl e ↦ ground arith
  | inr (d, e) ↦
      let rest =
        Preserves-bind AllInRange
          (update_delivery id searching
            >> send (Event.status_update id DeliveryStatus.searching_rider))
          (λ _. handle_quick_delivery_created distance id now) (λ t b. b)
          (λ _. handle_quick-Keeps distance id now) s a in
      ground arith
]

check_timeout-Keeps : (now id : ℕ) → Keeps (check_timeout now id)
unfolding check_timeout
check_timeout-Keeps now id s a = ground (arith, advance_and_notify-Keeps id now true s a)

retry_one-Keeps : (distance : ℕ → ℕ → Option ℕ) (now id : ℕ) → Keeps (retry_one distance now id)
retry_one-Keeps distance now id s a = ground (arith, handle_quick-Keeps (distance id) id now s a)

-- Whatever happens in a search, the index of every active search points at one of its riders.
pub turn-IsInRange : (now : ℕ) (t : Turn) (s : Db) → AllInRange s → AllInRange (turn now t s).1
unfolding turn on_rider_rejected on_rider_accepted check_matching_timeouts retry_paid_exhausted
turn-IsInRange now (Turn.created distance id) s a = handle_quick-Keeps distance id now s a
turn-IsInRange now (Turn.paid distance id) s a = payment_completed-Keeps distance id now s a
turn-IsInRange now (Turn.rejected id rider customer) s a = advance_and_notify-Keeps id now false _ a
turn-IsInRange now (Turn.accepted id) s a = erase-Always id s.matching a
turn-IsInRange now Turn.tick s a =
    each-Keeps (check_timeout now) (check_timeout-Keeps now) s.matching_ids s a
turn-IsInRange now (Turn.retry distance) s a =
    each-Keeps (retry_one distance now) (retry_one-Keeps distance now) (paid_searching s.deliveries)
      s a

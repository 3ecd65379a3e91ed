-- ===== src/Matching/Endings.antt =====
-- How a search goes on and ends: rejections, acceptances, timeouts, and riders who run out.
use fastmotion_delivery.Base.{
  ℕ, zero, suc, ◌+◌, ◌≤◌, ◌<◌, ◌≡◌, refl, sym, ap, ◌∙◌, Bool, true, false, Option, none, some, List,
  [], ◌∷◌, ◌++◌, map, arith, length, length-append, get_elem?,
}
use fastmotion_delivery.Base.Dict.{lookup, update, lookup-update_self, lookup-erase_self}
use fastmotion_delivery.Model.{Db, Delivery, MatchingState, is_paid, Result, ok, err}
use mathlib.Core.List.{append_assoc}
use fastmotion_delivery.Matching.Store.{
  get_matching_state, advance_to_next_rider, is_active_match, exhaust, next_rider,
}
use fastmotion_delivery.Matching.Search.{handle_unpaid_exhausted, cancelled_by_system}
use fastmotion_delivery.Matching.Dispatch.{
  advance_and_notify, on_rider_rejected, on_rider_accepted, check_timeout,
}

-- A search that still asks a rider, who is not the last one.
abbrev pub HasNext : (now : ℕ) → MatchingState → Type 0
HasNext now m =
    (is_active_match m.status ≡ true)
    × (now < m.expires_at)
    × (m.rider_index + 1 < length m.rider_ids)

-- A search whose last rider is asked.
abbrev pub IsLast : (now : ℕ) → MatchingState → Type 0
IsLast now m =
    (is_active_match m.status ≡ true)
    × (now < m.expires_at)
    × (length m.rider_ids ≤ m.rider_index + 1)

-- A rejection by any rider at all, asked or not, moves the search on to the next rider, so that the
-- one who was asked is passed over.
pub stranger_advances :
    (id stranger customer now : ℕ) (d : Delivery) (m : MatchingState) (s : Db)
    → lookup id s.deliveries ≡ some d
    → d.rider ≡ none
    → lookup id s.matching ≡ some m
    → HasNext now m
    → lookup id (on_rider_rejected id stranger customer now s).1.matching ≡ some (next_rider now m)
unfolding on_rider_rejected advance_and_notify advance_to_next_rider get_matching_state
stranger_advances id stranger customer now d m s e f g (h, i, j) =
    ground (arith, lookup-update_self id (next_rider now) s.matching g)

-- When the last rider of an unpaid delivery times out or rejects, its search and the delivery itself
-- are deleted.
pub unpaid_is_deleted :
    (id now : ℕ) (timeout : Bool) (d : Delivery) (m : MatchingState) (s : Db)
    → lookup id s.deliveries ≡ some d
    → d.rider ≡ none
    → is_paid d.payment_status ≡ false
    → lookup id s.matching ≡ some m
    → IsLast now m
    → let t = (advance_and_notify id now timeout s).1 in
      (lookup id t.deliveries ≡ none) × (get_matching_state id now t ≡ none)
unfolding advance_and_notify advance_to_next_rider get_matching_state handle_unpaid_exhausted
unpaid_is_deleted id now timeout d m s e f g h (i, j, k) = (
  ground (arith, lookup-erase_self id (update id (cancelled_by_system now) s.deliveries)),
  ground (arith, lookup-erase_self id (update id exhaust s.matching)),
)

-- When the last rider of a paid delivery times out or rejects, its search is deleted, so that it can
-- be tried again, and no delivery is changed.
pub paid_is_kept :
    (id now : ℕ) (timeout : Bool) (d : Delivery) (m : MatchingState) (s : Db)
    → lookup id s.deliveries ≡ some d
    → d.rider ≡ none
    → is_paid d.payment_status ≡ true
    → lookup id s.matching ≡ some m
    → IsLast now m
    → let t = (advance_and_notify id now timeout s).1 in
      (t.deliveries ≡ s.deliveries) × (get_matching_state id now t ≡ none)
unfolding advance_and_notify advance_to_next_rider get_matching_state
paid_is_kept id now timeout d m s e f g h (i, j, k) =
    (ground arith, ground (arith, lookup-erase_self id (update id exhaust s.matching)))

-- Once an acceptance has been heard of, timeouts of the delivery change nothing.
pub accepted_stops :
    (id now : ℕ) (s : Db)
    → let t = (on_rider_accepted id s).1 in check_timeout now id t ≡ (ok tt, t)
unfolding on_rider_accepted check_timeout get_matching_state
accepted_stops id now s = ground (arith, lookup-erase_self id s.matching)

-- The rider who is asked after an advance, if there is one.
abbrev pub asked_now : Result (Option MatchingState) → Option ℕ
asked_now (err e) = none
asked_now (ok none) = none
asked_now (ok (some m)) = get_elem? m.rider_ids m.rider_index

-- The riders who are asked by `n` calls of `advanceToNextRider` in a row.
abbrev pub asked_in_turn : ℕ → (id now : ℕ) → Db → List (Option ℕ)
asked_in_turn zero id now s = []
asked_in_turn (suc n) id now s =
    asked_now (advance_to_next_rider id now s).0
    ∷ asked_in_turn n id now (advance_to_next_rider id now s).1

advance_once :
    (id now : ℕ) (m : MatchingState) (s : Db)
    → lookup id s.matching ≡ some m
    → HasNext now m
    → lookup id (advance_to_next_rider id now s).1.matching ≡ some (next_rider now m)
unfolding advance_to_next_rider get_matching_state
advance_once id now m s e (f, g, h) =
    ground (arith, lookup-update_self id (next_rider now) s.matching e)

advance_last :
    (id now : ℕ) (m : MatchingState) (s : Db)
    → lookup id s.matching ≡ some m
    → IsLast now m
    → (advance_to_next_rider id now s).0 ≡ ok none
unfolding advance_to_next_rider get_matching_state
advance_last id now m s e (f, g, h) = ground arith

advance_asks :
    (id now : ℕ) (m : MatchingState) (s : Db)
    → lookup id s.matching ≡ some m
    → HasNext now m
    → asked_now (advance_to_next_rider id now s).0 ≡ get_elem? m.rider_ids (m.rider_index + 1)
unfolding advance_to_next_rider get_matching_state
advance_asks id now m s e (f, g, h) = ground arith

get-append : (xs : List ℕ) (y : ℕ) (ys : List ℕ) → get_elem? (xs ++ (y ∷ ys)) (length xs) ≡ some y
get-append [] y ys = refl
get-append (x ∷ xs) y ys = get-append xs y ys

-- A search asks the riders after the one who is asked, each once and in their order, and then nobody:
-- of a search that is active and has not expired, the advances ask the riders of the list that are
-- left, and the next advance answers that there is none.
pub search_ends :
    (id now rider : ℕ) (before later : List ℕ) (m : MatchingState) (s : Db)
    → lookup id s.matching ≡ some m
    → is_active_match m.status ≡ true
    → now < m.expires_at
    → m.rider_ids ≡ before ++ (rider ∷ later)
    → m.rider_index ≡ length before
    → asked_in_turn (suc (length later)) id now s ≡ map some later ++ (none ∷ [])
search_ends id now rider before [] m s e f g h i =
    let l : length m.rider_ids ≡ length before + 1 =
      ap length h ∙ length-append before (rider ∷ []) in
    ap (λ r. asked_now r ∷ []) (advance_last id now m s e (f, g, ground arith))
search_ends id now rider before (next ∷ later) m s e f g h i =
    let so_far = before ++ (rider ∷ []) in
    let l : length so_far ≡ length before + 1 = length-append before (rider ∷ []) in
    let h' : m.rider_ids ≡ so_far ++ (next ∷ later) =
      h ∙ sym (append_assoc before (rider ∷ []) (next ∷ later)) in
    let n : length m.rider_ids ≡ length so_far + suc (length later) =
      ap length h' ∙ length-append so_far (next ∷ later) in
    let has : HasNext now m = (f, g, ground arith) in
    let asks : asked_now (advance_to_next_rider id now s).0 ≡ some next =
      advance_asks id now m s e has
      ∙ ap (λ k. get_elem? m.rider_ids k) (ground arith)
      ∙ ap (λ xs. get_elem? xs (length so_far)) h'
      ∙ get-append so_far next later in
    let t = (advance_to_next_rider id now s).1 in
    let rest =
      search_ends id now next so_far later (next_rider now m) t (advance_once id now m s e has) f g
        h' (ground arith) in
    ap (λ o. o ∷ asked_in_turn (suc (length later)) id now t) asks ∙ ap (λ os. some next ∷ os) rest

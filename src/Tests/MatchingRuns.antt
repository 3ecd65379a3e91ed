-- ===== src/Tests/MatchingRuns.antt =====
-- The theorems on the search for a rider at concrete states.
use fastmotion_delivery.Base.{
  ℕ, ◌≤◌, ◌≡◌, refl, false, Option, none, some, [], ◌∷◌, arith, All, length, ◌==◌, if◌then◌else◌,
}
use fastmotion_delivery.Base.Dict.{lookup}
use fastmotion_delivery.Model.{Db, PaymentStatus}
use fastmotion_delivery.Matching.{riders_to_ask, is_in_cooldown, metres, Turn, turn}
use fastmotion_delivery.Matching.Fairness.{IsFound, IsNearestFirst, riders_to_ask-IsFair}
use fastmotion_delivery.Matching.Turns.{AllInRange, turn-IsInRange}
use fastmotion_delivery.Matching.Endings.{search_ends, asked_in_turn}
use fastmotion_delivery.Tests.Data.{with_search, search_doc, free_delivery}

-- The rider 7 is 9 km from the pickup and the rider 8 is 2 km.
abbrev distance : ℕ → Option ℕ
distance k = if k == 7 then some 9000 else some 2000

abbrev searching_db : Db
searching_db = with_search 0 PaymentStatus.pending

riders_to_ask-IsFair_example :
    let riders = riders_to_ask distance 10 free_delivery searching_db in
    (length riders ≤ 10)
    × All (IsFound distance searching_db.riders) riders
    × All (λ k. is_in_cooldown k 30 10 searching_db.cooldowns ≡ false) riders
    × IsNearestFirst (metres distance) riders
riders_to_ask-IsFair_example = riders_to_ask-IsFair distance 10 free_delivery searching_db

searching-AllInRange : AllInRange searching_db
unfolding lookup
searching-AllInRange k m e = ground arith

turn-IsInRange_example : AllInRange (turn 20_000 Turn.tick searching_db).1
turn-IsInRange_example = turn-IsInRange 20_000 Turn.tick searching_db searching-AllInRange

search_ends_example : asked_in_turn 2 5 10 searching_db ≡ some 8 ∷ none ∷ []
unfolding lookup
search_ends_example =
    search_ends 5 10 7 [] (8 ∷ []) (search_doc 0) searching_db refl refl (ground arith) refl refl

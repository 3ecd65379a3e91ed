-- ===== src/Matching/Store.antt =====
-- libs/common/src/modules/delivery-matching/delivery-matching-redis.service.ts
use fastmotion_delivery.Base.{
  ℕ, ◌+◌, ◌*◌, Bool, true, false, not, ◌&&◌, Option, none, some, List, [], ◌∷◌, ◌++◌, ltb, leb,
  ◌==◌, if◌then◌else◌, length,
}
use fastmotion_delivery.Base.Dict.{lookup, update, erase, put}
use fastmotion_delivery.Model.{
  Db, MatchingState, MatchingStatus, Cooldown, Handler, ⊤, pure, modify, ◌>>◌,
}

abbrev pub cooldown_ttl_sec : ℕ
cooldown_ttl_sec = 300

abbrev pub request_timeout_sec : ℕ
request_timeout_sec = 16

abbrev pub max_riders : ℕ
max_riders = 10

abbrev pub is_active_match : MatchingStatus → Bool
is_active_match MatchingStatus.active = true
is_active_match _ = false

-- `setCooldown`
abbrev pub set_cooldown : (rider customer now : ℕ) → Handler ⊤
set_cooldown rider customer now = modify λ s. record s {
  cooldowns =
      s.cooldowns
      ++ (record { rider = rider; customer = customer; expires_at = now + cooldown_ttl_sec * 1000 }
          ∷ []);
}

-- `isInCooldown`
unfoldable pub is_in_cooldown : (rider customer now : ℕ) → List Cooldown → Bool
is_in_cooldown rider customer now [] = false
is_in_cooldown rider customer now (c ∷ cs) =
    if c.rider == rider && (c.customer == customer && ltb now c.expires_at)
    then true
    else is_in_cooldown rider customer now cs

-- `filterByCooldown`
unfoldable pub filter_by_cooldown : (customer now : ℕ) → List Cooldown → List ℕ → List ℕ
filter_by_cooldown customer now cs [] = []
filter_by_cooldown customer now cs (r ∷ rs) =
    if is_in_cooldown r customer now cs
    then filter_by_cooldown customer now cs rs
    else r ∷ filter_by_cooldown customer now cs rs

-- `srem`
unfoldable pub remove : ℕ → List ℕ → List ℕ
remove k [] = []
remove k (x ∷ xs) = if k == x then remove k xs else x ∷ remove k xs

-- `sadd`
abbrev pub add : ℕ → List ℕ → List ℕ
add k xs = remove k xs ++ (k ∷ [])

abbrev pub initial_state : (customer : ℕ) (riders : List ℕ) (now : ℕ) → MatchingState
initial_state customer riders now = record {
  rider_ids = riders;
  rider_index = 0;
  customer_id = customer;
  sent_at = now;
  status = MatchingStatus.active;
  expires_at = now + 3_600_000;
}

-- `initMatchingState`, of a list that is not empty
abbrev pub init_matching_state : (id customer : ℕ) (riders : List ℕ) (now : ℕ) → Handler ⊤
init_matching_state id customer riders now = modify λ s. record s {
  matching = put id (initial_state customer riders now) s.matching;
  matching_ids = add id s.matching_ids;
}

-- `getMatchingState`: a key that has outlived its time is gone.
unfoldable pub get_matching_state : (id now : ℕ) → Db → Option MatchingState
get_matching_state id now s = elim (lookup id s.matching) [
  | none ↦ none
  | some m ↦ if ltb now m.expires_at then some m else none
]

abbrev pub set_matching : ℕ → (MatchingState → MatchingState) → Handler ⊤
set_matching id f = modify λ s. record s { matching = update id f s.matching }

abbrev pub forget_id : ℕ → Handler ⊤
forget_id id = modify λ s. record s { matching_ids = remove id s.matching_ids }

abbrev pub exhaust : MatchingState → MatchingState
exhaust m = record m { status = MatchingStatus.exhausted }

abbrev pub next_rider : ℕ → MatchingState → MatchingState
next_rider now m = record m { rider_index = m.rider_index + 1; sent_at = now }

-- `advanceToNextRider`
unfoldable pub advance_to_next_rider : (id now : ℕ) → Handler (Option MatchingState)
advance_to_next_rider id now s = elim (get_matching_state id now s) [
  | none ↦ pure none s
  | some m ↦
      if not (is_active_match m.status)
      then pure none s
      else if leb (length m.rider_ids) (m.rider_index + 1)
      then (set_matching id exhaust >> forget_id id >> pure none) s
      else (set_matching id (next_rider now) >> pure (some (next_rider now m))) s
]

-- `deleteMatchingState`
abbrev pub delete_matching_state : (id : ℕ) → Handler ⊤
delete_matching_state id =
    modify λ s. record s { matching = erase id s.matching; matching_ids = remove id s.matching_ids }

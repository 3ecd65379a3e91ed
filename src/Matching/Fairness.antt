-- ===== src/Matching/Fairness.antt =====
-- Who is asked for a delivery, and in which order: `handleQuickDeliveryCreated`.
use fastmotion_delivery.Base.{
  ℕ, zero, suc, ◌≤◌, ◌≡◌, refl, ◌⊎◌, inl, inr, true, false, Option, some, Option-cases, List, [],
  ◌∷◌, arith, leb, All, All-take, take, length, length-take-le, Bool-cases,
}
use fastmotion_delivery.Base.Dict.{Dict}
use fastmotion_delivery.Model.{Db, Delivery, Rider, Cooldown, VerificationStatus, is_verified}
use fastmotion_delivery.Base.Int.{pos, ltb_ℤ}
use fastmotion_delivery.Matching.Store.{filter_by_cooldown, is_in_cooldown}
use fastmotion_delivery.Matching.Search.{
  is_candidate, candidates, insert_by, sort_by, find_nearby_riders, riders_to_ask, metres,
}

-- A rider who is online, verified, not suspended, active, free for one more delivery, and at most 15 km
-- away.
pub record IsFree (distance : ℕ → Option ℕ) (k : ℕ) (r : Rider) : Type 0 where
  pub online : r.is_online ≡ true
  pub checked : r.verification_status ≡ VerificationStatus.verified
  pub unsuspended : r.is_suspended ≡ false
  pub active : r.is_active ≡ true
  pub has_room : ltb_ℤ r.current_delivery_count (pos r.max_concurrent_deliveries) ≡ true
  pub far : ℕ
  pub away : distance k ≡ some far
  pub near : far ≤ 15_000

verified_status : (v : VerificationStatus) → is_verified v ≡ true → v ≡ VerificationStatus.verified
verified_status VerificationStatus.verified h = refl
verified_status _ h = ground arith

candidate-IsFree :
    (distance : ℕ → Option ℕ) (k : ℕ) (r : Rider)
    → is_candidate distance k r ≡ true
    → IsFree distance k r
candidate-IsFree distance k r h = elim (Option-cases (distance k)) [
  | inl e ↦ ground arith
  | inr (m, e) ↦ record {
    online = ground arith;
    checked = verified_status r.verification_status (ground arith);
    unsuspended = ground arith;
    active = ground arith;
    has_room = ground arith;
    far = m;
    away = e;
    near = ground arith;
  }
]

-- A rider of the collection who may be asked.
unfoldable pub IsFound : (distance : ℕ → Option ℕ) → Dict Rider → ℕ → Type 0
IsFound distance [] k = ⊥
IsFound distance ((j, r) ∷ rs) k = ((k ≡ j) × IsFree distance j r) ⊎ IsFound distance rs k

module _ {κ} (P : ℕ → Type κ) (key : ℕ → ℕ) where
  All-insert : (x : ℕ) (xs : List ℕ) → P x → All P xs → All P (insert_by key x xs)
  unfolding insert_by
  All-insert x [] p ps = (p, tt)
  All-insert x (y ∷ ys) p (q, ps) = elim (Bool-cases (leb (key x) (key y))) [
    | inl e ↦ rw e (p, (q, ps))
    | inr e ↦ rw e (q, All-insert x ys p ps)
  ]

  All-sort : (xs : List ℕ) → All P xs → All P (sort_by key xs)
  unfolding sort_by
  All-sort [] ps = tt
  All-sort (x ∷ xs) (p, ps) = All-insert x (sort_by key xs) p (All-sort xs ps)

  All-filter :
      (customer now : ℕ) (cs : List Cooldown) (xs : List ℕ)
      → All P xs
      → All P (filter_by_cooldown customer now cs xs)
  unfolding filter_by_cooldown
  All-filter customer now cs [] ps = tt
  All-filter customer now cs (x ∷ xs) (p, ps) =
      elim (Bool-cases (is_in_cooldown x customer now cs)) [
        | inl e ↦ rw e (All-filter customer now cs xs ps)
        | inr e ↦ rw e (p, All-filter customer now cs xs ps)
      ]

All-weaken {κ} : {P Q : ℕ → Type κ} → ((k : ℕ) → P k → Q k) → (xs : List ℕ) → All P xs → All Q xs
All-weaken f [] ps = tt
All-weaken f (x ∷ xs) (p, ps) = (f x p, All-weaken f xs ps)

candidates-IsFound :
    (distance : ℕ → Option ℕ) (rs : Dict Rider) → All (IsFound distance rs) (candidates distance rs)
unfolding candidates IsFound
candidates-IsFound distance [] = tt
candidates-IsFound distance ((j, r) ∷ rs) =
    let rest : All (IsFound distance ((j, r) ∷ rs)) (candidates distance rs) =
      All-weaken (λ k p. inr p) (candidates distance rs) (candidates-IsFound distance rs) in
    elim (Bool-cases (is_candidate distance j r)) [
      | inl e ↦ rw e (inl (refl, candidate-IsFree distance j r e), rest)
      | inr e ↦ rw e rest
    ]

filter-IsWarm :
    (customer now : ℕ) (cs : List Cooldown) (xs : List ℕ)
    → All (λ k. is_in_cooldown k customer now cs ≡ false) (filter_by_cooldown customer now cs xs)
unfolding filter_by_cooldown
filter-IsWarm customer now cs [] = tt
filter-IsWarm customer now cs (x ∷ xs) = elim (Bool-cases (is_in_cooldown x customer now cs)) [
  | inl e ↦ rw e (filter-IsWarm customer now cs xs)
  | inr e ↦ rw e (e, filter-IsWarm customer now cs xs)
]

-- Nobody is asked before somebody nearer.
abbrev pub IsNearestFirst : (ℕ → ℕ) → List ℕ → Type 0
IsNearestFirst key [] = Unit
IsNearestFirst key (x ∷ xs) = All (λ y. key x ≤ key y) xs × IsNearestFirst key xs

module _ (key : ℕ → ℕ) where
  insert-IsNearestFirst :
      (x : ℕ) (xs : List ℕ) → IsNearestFirst key xs → IsNearestFirst key (insert_by key x xs)
  unfolding insert_by
  insert-IsNearestFirst x [] s = (tt, tt)
  insert-IsNearestFirst x (y ∷ ys) (least, s) = elim (Bool-cases (leb (key x) (key y))) [
    | inl e ↦ rw e (
      (
        ground arith,
        All-weaken {P = λ z. key y ≤ key z} {Q = λ z. key x ≤ key z} (λ z h. ground arith) ys least,
      ),
      (least, s),
    )
    | inr e ↦ rw e (
      All-insert (λ z. key y ≤ key z) key x ys (ground arith) least,
      insert-IsNearestFirst x ys s,
    )
  ]

  sort-IsNearestFirst : (xs : List ℕ) → IsNearestFirst key (sort_by key xs)
  unfolding sort_by
  sort-IsNearestFirst [] = tt
  sort-IsNearestFirst (x ∷ xs) = insert-IsNearestFirst x (sort_by key xs) (sort-IsNearestFirst xs)

  filter-IsNearestFirst :
      (customer now : ℕ) (cs : List Cooldown) (xs : List ℕ)
      → IsNearestFirst key xs
      → IsNearestFirst key (filter_by_cooldown customer now cs xs)
  unfolding filter_by_cooldown
  filter-IsNearestFirst customer now cs [] s = tt
  filter-IsNearestFirst customer now cs (x ∷ xs) (least, s) =
      elim (Bool-cases (is_in_cooldown x customer now cs)) [
        | inl e ↦ rw e (filter-IsNearestFirst customer now cs xs s)
        | inr e ↦ rw e (
          All-filter (λ y. key x ≤ key y) key customer now cs xs least,
          filter-IsNearestFirst customer now cs xs s,
        )
      ]

  take-IsNearestFirst :
      (n : ℕ) (xs : List ℕ) → IsNearestFirst key xs → IsNearestFirst key (take n xs)
  take-IsNearestFirst zero xs s = tt
  take-IsNearestFirst (suc n) [] s = tt
  take-IsNearestFirst (suc n) (x ∷ xs) (least, s) =
      (All-take (λ y. key x ≤ key y) n xs least, take-IsNearestFirst n xs s)

-- When a search begins, the riders whom it lists are ten at most; each is then online, verified, active,
-- not suspended, free for one more delivery and within 15 km, and is in no cooldown for the customer;
-- and they are listed from the nearest to the farthest. Whether this still holds of a rider later on,
-- when the turn comes, is not said.
pub riders_to_ask-IsFair :
    (distance : ℕ → Option ℕ) (now : ℕ) (d : Delivery) (s : Db)
    → let riders = riders_to_ask distance now d s in
      (length riders ≤ 10)
      × All (IsFound distance s.riders) riders
      × All (λ k. is_in_cooldown k d.customer now s.cooldowns ≡ false) riders
      × IsNearestFirst (metres distance) riders
unfolding riders_to_ask find_nearby_riders
riders_to_ask-IsFair distance now d s =
    let key = metres distance in
    let found = candidates distance s.riders in
    let near = sort_by key found in
    let warm = filter_by_cooldown d.customer now s.cooldowns near in
    (
      length-take-le 10 warm,
      All-take (IsFound distance s.riders) 10 warm (
          All-filter (IsFound distance s.riders) key d.customer now s.cooldowns near (
            All-sort (IsFound distance s.riders) key found (candidates-IsFound distance s.riders))),
      All-take (λ k. is_in_cooldown k d.customer now s.cooldowns ≡ false) 10 warm
          (filter-IsWarm d.customer now s.cooldowns near),
      take-IsNearestFirst key 10 warm (
          filter-IsNearestFirst key d.customer now s.cooldowns near
            (sort-IsNearestFirst key found)),
    )

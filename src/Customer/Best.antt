-- ===== src/Customer/Best.antt =====
-- apps/user-api/src/delivery/repository/delivery.repository.ts: which zone and which time pricing the
-- sorted queries find.
use fastmotion_delivery.Base.{
  ℕ, ◌≤◌, ◌≡◌, ◌⊎◌, inl, inr, refl, Bool, true, false, Option, none, some, List, [], ◌∷◌, All,
  arith, Bool-cases, leb,
}
use fastmotion_delivery.Customer.Queries.{
  World, LocationZone, TimePricing, insert_by_priority, by_priority, find_first, reaches,
  is_in_force, find_zone_by_coordinates, find_time_pricing,
}

module _ {A : Type 0} where
  abbrev pub IsIn : A → List A → Type 0
  IsIn x [] = ⊥
  IsIn x (y ∷ ys) = (x ≡ y) ⊎ IsIn x ys

  All-weaken : {P Q : A → Type 0} → ((x : A) → P x → Q x) → (xs : List A) → All P xs → All Q xs
  All-weaken f [] ps = tt
  All-weaken f (x ∷ xs) (p, ps) = (f x p, All-weaken f xs ps)

module _ {A : Type 0} (priority : A → ℕ) where
  All-insert :
      (P : A → Type 0) (x : A) (xs : List A)
      → P x
      → All P xs
      → All P (insert_by_priority priority x xs)
  unfolding insert_by_priority
  All-insert P x [] p ps = (p, tt)
  All-insert P x (y ∷ ys) p (q, ps) = elim (Bool-cases (leb (priority y) (priority x))) [
    | inl e ↦ rw e (p, (q, ps))
    | inr e ↦ rw e (q, All-insert P x ys p ps)
  ]

  All-insert_inv :
      (P : A → Type 0) (x : A) (xs : List A)
      → All P (insert_by_priority priority x xs)
      → P x × All P xs
  unfolding insert_by_priority
  All-insert_inv P x [] (p, ps) = (p, tt)
  All-insert_inv P x (y ∷ ys) h = elim (Bool-cases (leb (priority y) (priority x))) [
    | inl e ↦ rw e at h
    | inr e ↦
        let h' : P y × All P (insert_by_priority priority x ys) = rw e at h in
        let (p, ps) = All-insert_inv P x ys h'.1 in (p, (h'.0, ps))
  ]

  All-sort_inv : (P : A → Type 0) (xs : List A) → All P (by_priority priority xs) → All P xs
  unfolding by_priority
  All-sort_inv P [] h = tt
  All-sort_inv P (x ∷ xs) h =
      let (p, ps) = All-insert_inv P x (by_priority priority xs) h in (p, All-sort_inv P xs ps)

  IsIn-insert_inv :
      (z x : A) (xs : List A) → IsIn z (insert_by_priority priority x xs) → (z ≡ x) ⊎ IsIn z xs
  unfolding insert_by_priority
  IsIn-insert_inv z x [] h = h
  IsIn-insert_inv z x (y ∷ ys) h = elim (Bool-cases (leb (priority y) (priority x))) [
    | inl e ↦ rw e at h
    | inr e ↦
        let h' : (z ≡ y) ⊎ IsIn z (insert_by_priority priority x ys) = rw e at h in
        elim h' [
          | inl q ↦ inr (inl q)
          | inr i ↦ elim (IsIn-insert_inv z x ys i) [ inl q ↦ inl q | inr j ↦ inr (inr j) ]
        ]
  ]

  IsIn-sort_inv : (z : A) (xs : List A) → IsIn z (by_priority priority xs) → IsIn z xs
  unfolding by_priority
  IsIn-sort_inv z [] h = h
  IsIn-sort_inv z (x ∷ xs) h = elim (IsIn-insert_inv z x (by_priority priority xs) h) [
    | inl q ↦ inl q
    | inr i ↦ inr (IsIn-sort_inv z xs i)
  ]

  abbrev IsDescending : List A → Type 0
  IsDescending [] = Unit
  IsDescending (x ∷ xs) = All (λ y. priority y ≤ priority x) xs × IsDescending xs

  insert-IsDescending :
      (x : A) (xs : List A) → IsDescending xs → IsDescending (insert_by_priority priority x xs)
  unfolding insert_by_priority
  insert-IsDescending x [] h = (tt, tt)
  insert-IsDescending x (y ∷ ys) (b, h) = elim (Bool-cases (leb (priority y) (priority x))) [
    | inl e ↦
        let le : priority y ≤ priority x = ground arith in
        rw e ((le, All-weaken (λ z q. ground arith) ys b), (b, h))
    | inr e ↦
        let le : priority x ≤ priority y = ground arith in
        rw e (All-insert (λ z. priority z ≤ priority y) x ys le b, insert-IsDescending x ys h)
  ]

  sort-IsDescending : (xs : List A) → IsDescending (by_priority priority xs)
  unfolding by_priority
  sort-IsDescending [] = tt
  sort-IsDescending (x ∷ xs) =
      insert-IsDescending x (by_priority priority xs) (sort-IsDescending xs)

module _ {A : Type 0} (p : A → Bool) (priority : A → ℕ) where
  -- The result of a search through a list, described without an order: no element matches; or the
  -- result does, is in the list, and no matching element has a greater priority.
  abbrev pub IsBest : Option A → List A → Type 0
  IsBest none xs = All (λ x. p x ≡ false) xs
  IsBest (some x) xs =
      (p x ≡ true) × IsIn x xs × All (λ y. (p y ≡ false) ⊎ (priority y ≤ priority x)) xs

  skip-IsBest : (o : Option A) (x : A) (xs : List A) → p x ≡ false → IsBest o xs → IsBest o (x ∷ xs)
  skip-IsBest none x xs e h = (e, h)
  skip-IsBest (some y) x xs e (f, i, b) = (f, inr i, (inl e, b))

  find-IsBest : (xs : List A) → IsDescending priority xs → IsBest (find_first p xs) xs
  unfolding find_first
  find-IsBest [] h = tt
  find-IsBest (x ∷ xs) (b, h) = elim (Bool-cases (p x)) [
    | inl e ↦ rw e (e, inl refl, (inr (omega arith), All-weaken (λ y q. inr q) xs b))
    | inr e ↦ rw e (skip-IsBest (find_first p xs) x xs e (find-IsBest xs h))
  ]

  sort-IsBest : (o : Option A) (xs : List A) → IsBest o (by_priority priority xs) → IsBest o xs
  sort-IsBest none xs h = All-sort_inv priority (λ x. p x ≡ false) xs h
  sort-IsBest (some x) xs (e, i, b) = (
    e,
    IsIn-sort_inv priority x xs i,
    All-sort_inv priority (λ y. (p y ≡ false) ⊎ (priority y ≤ priority x)) xs b,
  )

  found-IsBest : (xs : List A) → IsBest (find_first p (by_priority priority xs)) xs
  found-IsBest xs =
      sort-IsBest (find_first p (by_priority priority xs)) xs
        (find-IsBest (by_priority priority xs) (sort-IsDescending priority xs))

-- The zone of a place is an active one whose radius reaches the place, of the greatest priority of
-- these; no zone is found exactly when there is none.
pub zone-IsBest :
    (w : World) (place : ℕ) (zones : List LocationZone)
    → IsBest (reaches w place) (λ z. z.priority) (find_zone_by_coordinates w place zones) zones
unfolding find_zone_by_coordinates
zone-IsBest w place zones = found-IsBest (reaches w place) (λ z. z.priority) zones

-- The time pricing of a date is an active one of the day of the week whose hours the date is in, of
-- the greatest priority of these; none is found exactly when there is none.
pub time_pricing-IsBest :
    (w : World) (date : ℕ) (ts : List TimePricing)
    → IsBest (is_in_force w date) (λ t. t.priority) (find_time_pricing w date ts) ts
unfolding find_time_pricing
time_pricing-IsBest w date ts = found-IsBest (is_in_force w date) (λ t. t.priority) ts

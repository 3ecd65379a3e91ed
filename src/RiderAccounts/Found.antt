-- ===== src/RiderAccounts/Found.antt =====
-- The rider that a query finds, before and after a change.
use fastmotion_delivery.Base.{
  ℕ, ◌≡◌, inl, inr, sym, ap, ◌∙◌, Bool, true, false, none, some, [], ◌∷◌, arith, ◌==◌, Bool-cases,
}
use fastmotion_delivery.Base.Dict.{Dict, lookup, update}
use fastmotion_delivery.Model.{Rider}
use fastmotion_delivery.RiderAccounts.Lookup.{find_rider}

pub find-holds :
    (p : ℕ → Rider → Bool) (rs : Dict Rider) (k : ℕ) (r : Rider)
    → find_rider p rs ≡ some (k, r)
    → p k r ≡ true
unfolding find_rider
find-holds p [] k r e = cc
find-holds p ((j, x) ∷ rs) k r e = elim (Bool-cases (p j x)) [
  | inl h ↦
      let jk : j ≡ k = ground arith in
      let xr : x ≡ r = ground arith in sym (ap (λ i. p i r) jk) ∙ sym (ap (p j) xr) ∙ h
  | inr h ↦ find-holds p rs k r (ground arith)
]

-- A rider that is not found does not meet the query.
pub find-none :
    (p : ℕ → Rider → Bool) (rs : Dict Rider) (k : ℕ) (r : Rider)
    → find_rider p rs ≡ none
    → lookup k rs ≡ some r
    → p k r ≡ false
unfolding find_rider lookup
find-none p [] k r e f = cc
find-none p ((j, x) ∷ rs) k r e f = elim (Bool-cases (p j x)) [
  | inl h ↦ ground arith
  | inr h ↦ elim (Bool-cases (k == j)) [
    | inr ne ↦ find-none p rs k r (ground arith) (ground arith)
    | inl same ↦
        let jk : j ≡ k = ground arith in
        let xr : x ≡ r = ground arith in sym (ap (λ i. p i r) jk) ∙ sym (ap (p j) xr) ∙ h
  ]
]

-- A rider that is found is found after a change that the query does not see.
pub find-update :
    (p : ℕ → Rider → Bool) (f : Rider → Rider) (rs : Dict Rider) (k : ℕ) (r : Rider)
    → ((i : ℕ) (x : Rider) → p i (f x) ≡ p i x)
    → lookup k rs ≡ some r
    → find_rider p rs ≡ some (k, r)
    → find_rider p (update k f rs) ≡ some (k, f r)
unfolding find_rider lookup update
find-update p f [] k r keep e h = cc
find-update p f ((j, x) ∷ rs) k r keep e h = elim (Bool-cases (p j x)) [
  | inl q ↦
      let kj : k == j ≡ true = ground arith in
      let xr : x ≡ r = ground arith in
      let jk : j ≡ k = ground arith in
      rw kj (rw (keep j x ∙ q) (ap (λ i. some (i, f x)) jk ∙ ap (λ y. some (k, f y)) xr))
  | inr q ↦ elim (Bool-cases (k == j)) [
    | inl same ↦
        let jk : j ≡ k = ground arith in
        let xr : x ≡ r = ground arith in
        let holds = find-holds p rs k r (ground arith) in
        cc (sym (ap (λ i. p i r) jk) ∙ sym (ap (p j) xr) ∙ q, holds)
    | inr ne ↦ rw ne (rw q (find-update p f rs k r keep (ground arith) (ground arith)))
  ]
]

-- ===== src/Ratings/Sums.antt =====
-- The number and the sum of a rider's ratings, when a rating is added or revised.
use fastmotion_delivery.Base.{
  ℕ, ◌+◌, ◌≡◌, ◌≢◌, ◌⊎◌, inl, refl, false, Option, some, [], ◌∷◌, ◌++◌, arith, if◌then◌else◌,
}
use fastmotion_delivery.Base.Dict.{Dict, lookup, update}
use fastmotion_delivery.Model.{Rating}
use fastmotion_delivery.Ratings.Rate.{counts_for, number_of, score_sum, revised, is_new_score}

-- The ratings of all riders but one are as before.
abbrev pub SameBut : (rider : ℕ) → Dict Rating → Dict Rating → Type 0
SameBut rider rs rs' =
    (k : ℕ) → k ≢ rider → (number_of k rs' ≡ number_of k rs) × (score_sum k rs' ≡ score_sum k rs)

number-append :
    (k id : ℕ) (r : Rating) (rs : Dict Rating)
    → number_of k (rs ++ ((id, r) ∷ [])) ≡ number_of k rs + (if counts_for k r then 1 else 0)
unfolding number_of
number-append k id r [] = omega arith
number-append k id r ((i, x) ∷ rs) = omega (arith, number-append k id r rs)

sum-append :
    (k id : ℕ) (r : Rating) (rs : Dict Rating)
    → score_sum k (rs ++ ((id, r) ∷ [])) ≡ score_sum k rs + (if counts_for k r then r.score else 0)
unfolding score_sum
sum-append k id r [] = omega arith
sum-append k id r ((i, x) ∷ rs) = omega (arith, sum-append k id r rs)

pub append-SameBut :
    (id : ℕ) (r : Rating) (rs : Dict Rating) → SameBut r.rider rs (rs ++ ((id, r) ∷ []))
append-SameBut id r rs k ne =
    (ground (arith, number-append k id r rs), ground (arith, sum-append k id r rs))

module _ (score comment : Option ℕ) where
  revised-counts : (k : ℕ) (r : Rating) → counts_for k (revised score comment r) ≡ counts_for k r
  revised-counts k r = ground arith

  pub number-revised :
      (k id : ℕ) (rs : Dict Rating)
      → number_of k (update id (revised score comment) rs) ≡ number_of k rs
  unfolding number_of update
  number-revised k id [] = refl
  number-revised k id ((i, x) ∷ rs) = ground (arith, number-revised k id rs, revised-counts k x)

  -- A rating of another rider, or one whose score stays, leaves the sum.
  pub sum-revised :
      (k id : ℕ) (rs : Dict Rating) {r : Rating}
      → lookup id rs ≡ some r
      → (counts_for k r ≡ false) ⊎ (is_new_score score r ≡ false)
      → score_sum k (update id (revised score comment) rs) ≡ score_sum k rs
  unfolding score_sum update lookup
  sum-revised k id [] e h = refl
  sum-revised k id ((i, x) ∷ rs) {r} e h =
      ground (arith, sum-revised k id rs {r = r}, revised-counts k x)

  pub revised-SameBut :
      (id : ℕ) (rs : Dict Rating) {r : Rating}
      → lookup id rs ≡ some r
      → SameBut r.rider rs (update id (revised score comment) rs)
  revised-SameBut id rs {r} e k ne =
      (number-revised k id rs, sum-revised k id rs {r = r} e (inl (ground arith)))

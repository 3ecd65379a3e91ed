-- ===== src/Ratings/Averages.antt =====
-- The average and the number of ratings in each rider's document, and the ratings themselves.
use fastmotion_delivery.Base.{
  ◌/◌, ℕ, zero, suc, ◌*◌, ◌≤◌, ◌<◌, length, if◌then◌else◌, ◌+◌, ◌≡◌, ◌↔◌, ◌⊎◌, inl, inr, refl, sym,
  ap, subst, ◌∙◌, true, false, not, Option, some, List, [], ◌∷◌, ◌++◌, arith, Option-cases,
  Bool-cases, ◌==◌, ◌&&◌, ltb,
}
use native.Mathlib.Nat.{div-add-mod, mod-lt}
use fastmotion_delivery.Base.Dict.{Dict, lookup, update, lookup-update_inv, lookup-update_self}
use fastmotion_delivery.Model.{Db, Delivery, Rating, Rider, is_ok}
use fastmotion_delivery.Ratings.Sums.{
  SameBut, append-SameBut, revised-SameBut, number-revised, sum-revised,
}
use fastmotion_delivery.Ratings.Rate.{
  number_of, score_sum, rounded_average, average_of, with_average, refresh_rider, store_rating,
  rated, create_rating, update_rating, revised, is_new_score, new_rating, can_rate, are_tags,
  positive_tags, negative_tags,
}

-- The scores that customers gave the rider in ratings that are visible.
unfoldable pub scores : (rider : ℕ) → Dict Rating → List ℕ
scores rider [] = []
scores rider ((k, r) ∷ rs) =
    let rest = scores rider rs in
    if r.rider == rider then (if r.is_visible then r.score ∷ rest else rest) else rest

abbrev pub sum : List ℕ → ℕ
sum [] = 0
sum (n ∷ ns) = n + sum ns

-- `average` is the average of `number` scores that add up to `total`, in tenths of a star: the next
-- whole number, halves upwards, and 0 without a score.
abbrev pub IsAverage : (average total number : ℕ) → Type 0
IsAverage average total zero = average ≡ 0
IsAverage average total (suc n) =
    (2 * suc n * average ≤ 20 * total + suc n)
    × (20 * total + suc n < 2 * suc n * average + 2 * suc n)

-- Every rider's document shows the average and the number of the scores in visible ratings.
unfoldable pub IsAveraged : Db → Type 0
IsAveraged s =
    (k : ℕ) (w : Rider)
    → lookup k s.riders ≡ some w
    → let given = scores k s.ratings in
      (w.total_ratings ≡ length given) × IsAverage w.average_rating (sum given) (length given)

divided : (x m : ℕ) → 0 < m → (m * (x / m) ≤ x) × (x < m * (x / m) + m)
divided x m h = (omega (arith, div-add-mod x m), omega (arith, div-add-mod x m, mod-lt x h))

rounded-IsAverage : (total number : ℕ) → IsAverage (rounded_average total number) total number
rounded-IsAverage total zero = refl
rounded-IsAverage total (suc n) =
    let rated_once : suc n == 0 ≡ false = ground arith in
    rw rated_once (divided (20 * total + suc n) (2 * suc n) (omega arith))

number-scores : (k : ℕ) (rs : Dict Rating) → number_of k rs ≡ length (scores k rs)
unfolding number_of scores
number-scores k [] = refl
number-scores k ((i, r) ∷ rs) = ground (arith, number-scores k rs)

sum-scores : (k : ℕ) (rs : Dict Rating) → score_sum k rs ≡ sum (scores k rs)
unfolding score_sum scores
sum-scores k [] = refl
sum-scores k ((i, r) ∷ rs) = ground (arith, sum-scores k rs)

with_sums : {a a' t t' n n' : ℕ} → a ≡ a' → t ≡ t' → n ≡ n' → IsAverage a t n → IsAverage a' t' n'
with_sums {a} {a'} {t} {t'} {n} {n'} e f g h =
    subst (λ x. IsAverage x t' n') e (subst (λ x. IsAverage a x n') f (subst (IsAverage a t) g h))

average_of-IsAverage :
    (k : ℕ) (rs : Dict Rating)
    → IsAverage (average_of k rs) (sum (scores k rs)) (length (scores k rs))
unfolding average_of
average_of-IsAverage k rs =
    with_sums refl (sum-scores k rs) (number-scores k rs)
      (rounded-IsAverage (score_sum k rs) (number_of k rs))

-- A document that showed its rider's ratings shows them still where their sums are the same.
kept_sums :
    (k total average : ℕ) (rs rs' : Dict Rating)
    → number_of k rs' ≡ number_of k rs
    → score_sum k rs' ≡ score_sum k rs
    → (total ≡ length (scores k rs)) × IsAverage average (sum (scores k rs)) (length (scores k rs))
    → (total ≡ length (scores k rs'))
      × IsAverage average (sum (scores k rs')) (length (scores k rs'))
kept_sums k total average rs rs' n m (num, avg) =
    let len = sym (number-scores k rs) ∙ sym n ∙ number-scores k rs' in
    let all = sym (sum-scores k rs) ∙ sym m ∙ sum-scores k rs' in
    (num ∙ len, with_sums refl all len avg)

-- The recomputation for the one rider whose ratings changed.
refresh-IsAveraged :
    (rider : ℕ) (s t : Db)
    → IsAveraged s
    → t.riders ≡ s.riders
    → SameBut rider s.ratings t.ratings
    → IsAveraged (refresh_rider rider t).1
unfolding IsAveraged refresh_rider
refresh-IsAveraged rider s t h same but k w e =
    let f = with_average (average_of rider t.ratings) (number_of rider t.ratings) in
    let (v, found, from) = lookup-update_inv k rider f t.riders e in
    elim from [
      | inl (jk, wf) ↦
          let num = ap (λ x. x.total_ratings) wf ∙ ap (λ j. number_of j t.ratings) (sym jk) in
          let avg = ap (λ x. x.average_rating) wf ∙ ap (λ j. average_of j t.ratings) (sym jk) in
          (
            num ∙ number-scores k t.ratings,
            with_sums (sym avg) refl refl (average_of-IsAverage k t.ratings),
          )
      | inr (ne, wv) ↦
          let (n, m) = but k ne in
          let (num, avg) =
            kept_sums k v.total_ratings v.average_rating s.ratings t.ratings n m
              (h k v (ap (lookup k) (sym same) ∙ found)) in
          (
            ap (λ x. x.total_ratings) wv ∙ num,
            with_sums (sym (ap (λ x. x.average_rating) wv)) refl refl avg,
          )
    ]

store-IsAveraged :
    (new_id id : ℕ) (r : Rating) (s : Db) → IsAveraged s → IsAveraged (store_rating new_id id r s).1
unfolding IsAveraged store_rating refresh_rider
store-IsAveraged new_id id r s h =
    refresh-IsAveraged r.rider s
      (record s {
        ratings = s.ratings ++ ((new_id, r) ∷ []);
        deliveries = update id rated s.deliveries;
      })
      h refl (append-SameBut new_id r s.ratings)

-- A rating that is revised without a new score leaves all sums.
unscored-IsAveraged :
    (id : ℕ) (score comment : Option ℕ) (r : Rating) (s : Db)
    → IsAveraged s
    → lookup id s.ratings ≡ some r
    → is_new_score score r ≡ false
    → IsAveraged (record s { ratings = update id (revised score comment) s.ratings })
unfolding IsAveraged
unscored-IsAveraged id score comment r s h e old k w f =
    kept_sums k w.total_ratings w.average_rating s.ratings
      (update id (revised score comment) s.ratings) (number-revised score comment k id s.ratings)
      (sum-revised score comment k id s.ratings {r = r} e (inr old)) (h k w f)

-- What a request for a new rating, and one for a change, come to.
create-cases :
    (user id new_id score now : ℕ) (comment : Option ℕ) (positive negative : List ℕ) (s : Db)
    → let t = (create_rating user id new_id score comment positive negative now s).1 in
      (t ≡ s)
      ⊎ ((rider : ℕ) × (t
            ≡ (store_rating new_id id (new_rating user id rider score comment now) s).1))
unfolding create_rating
create-cases user id new_id score now comment positive negative s =
    elim (Option-cases (lookup id s.deliveries)) [
      | inl e ↦ inl (ground arith)
      | inr (d, e) ↦ elim (Option-cases d.rider) [
        | inl f ↦ inl (ground arith)
        | inr (r, f) ↦
            elim (Bool-cases (
              can_rate user (some d)
              && (are_tags positive_tags positive && are_tags negative_tags negative))) [
                | inl g ↦ inr (r, ground arith)
                | inr g ↦ inl (ground arith)
              ]
      ]
    ]

revise-cases :
    (user id now : ℕ) (score comment : Option ℕ) (s : Db)
    → let t = (update_rating user id score comment now s).1 in
      let t0 = record s { ratings = update id (revised score comment) s.ratings } in
      (t ≡ s)
      ⊎ ((r : Rating) × (lookup id s.ratings ≡ some r)
          × (((is_new_score score r ≡ false) × (t ≡ t0)) ⊎ (t ≡ (refresh_rider r.rider t0).1)))
unfolding update_rating
revise-cases user id now score comment s = elim (Option-cases (lookup id s.ratings)) [
  | inl e ↦ inl (ground arith)
  | inr (r, e) ↦
      elim (Bool-cases (r.customer == user && not (ltb (r.created_at + 86_400_000) now))) [
        | inl g ↦ inr (r, e, ground arith)
        | inr g ↦ inl (ground arith)
      ]
]

-- A new rating, whether it is accepted or not, leaves every rider's document with the number of the
-- scores that the rider was given in visible ratings, and with their average in tenths of a star, if it
-- was so before.
pub create-IsAveraged :
    (user id new_id score now : ℕ) (comment : Option ℕ) (positive negative : List ℕ) (s : Db)
    → IsAveraged s
    → IsAveraged (create_rating user id new_id score comment positive negative now s).1
create-IsAveraged user id new_id score now comment positive negative s h =
    elim (create-cases user id new_id score now comment positive negative s) [
      | inl e ↦ subst IsAveraged (sym e) h
      | inr (rider, e) ↦
          subst IsAveraged (sym e)
            (store-IsAveraged new_id id (new_rating user id rider score comment now) s h)
    ]

-- So does a change of a rating.
pub update-IsAveraged :
    (user id now : ℕ) (score comment : Option ℕ) (s : Db)
    → IsAveraged s
    → IsAveraged (update_rating user id score comment now s).1
update-IsAveraged user id now score comment s h =
    let t0 = record s { ratings = update id (revised score comment) s.ratings } in
    elim (revise-cases user id now score comment s) [
      | inl e ↦ subst IsAveraged (sym e) h
      | inr (r, e, w) ↦ elim w [
        | inl (old, same) ↦
            subst IsAveraged (sym same) (unscored-IsAveraged id score comment r s h e old)
        | inr same ↦ subst IsAveraged (sym same) (
            refresh-IsAveraged r.rider s t0 h refl
              (revised-SameBut score comment id s.ratings {r = r} e))
      ]
    ]

-- A delivery is rated exactly once: a rating is accepted exactly when the delivery is the customer's
-- own, is delivered or completed, has a rider and is not rated, and the tags are known; and the next
-- one for the same delivery is refused.
pub rate_once :
    (user id new_id score now : ℕ) (comment : Option ℕ) (positive negative : List ℕ)
    (other next_id stars later : ℕ) (remark : Option ℕ) (good bad : List ℕ) (d : Delivery) (s : Db)
    → lookup id s.deliveries ≡ some d
    → let r = create_rating user id new_id score comment positive negative now s in
      ((is_ok r.0 ≡ true) ↔ (
        (can_rate user (some d) ≡ true)
        × (are_tags positive_tags positive ≡ true)
        × (are_tags negative_tags negative ≡ true)))
      × ((is_ok r.0 ≡ false)
          ⊎ (is_ok (create_rating other id next_id stars remark good bad later r.1).0 ≡ false))
unfolding create_rating store_rating refresh_rider
rate_once user id new_id score now comment positive negative other next_id stars later remark good
      bad d s e =
    ground (arith, lookup-update_self id rated s.deliveries e)

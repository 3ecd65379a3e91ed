-- ===== src/Ratings/Rate.antt =====
-- apps/user-api/src/rating/rating.service.ts: `createRating` and `updateRating`.
use fastmotion_delivery.Base.{
  ℕ, ◌+◌, ◌*◌, ◌/◌, Bool, true, false, not, ◌&&◌, ◌||◌, Option, none, some, List, [], ◌∷◌, ◌++◌,
  ◌==◌, ltb, if◌then◌else◌, is_some,
}
use fastmotion_delivery.Base.Dict.{Dict, lookup, update}
use fastmotion_delivery.Model.{
  Delivery, DeliveryStatus, Rating, Rider, Handler, HttpError, Event, ⊤, gets, some_or, require,
  when, modify, send, update_delivery, update_rider, includes, ◌>>=◌, ◌>>◌,
}

-- The tags that the service knows, numbered in the order of its arrays.
abbrev pub positive_tags : List ℕ
positive_tags = 1 ∷ 2 ∷ 3 ∷ 4 ∷ 5 ∷ 6 ∷ 7 ∷ 8 ∷ 9 ∷ []

abbrev pub negative_tags : List ℕ
negative_tags = 11 ∷ 12 ∷ 13 ∷ 14 ∷ 15 ∷ 16 ∷ 17 ∷ []

abbrev pub is_tag : List ℕ → ℕ → Bool
is_tag [] t = false
is_tag (x ∷ xs) t = t == x || is_tag xs t

-- No tag is left by the filter of the invalid ones.
abbrev pub are_tags : (known tags : List ℕ) → Bool
are_tags known [] = true
are_tags known (t ∷ ts) = is_tag known t && are_tags known ts

-- `canCustomerRate`
abbrev pub can_rate : (user : ℕ) → Option Delivery → Bool
can_rate user none = false
can_rate user (some d) =
    d.customer == user
    && (includes d.status (DeliveryStatus.completed ∷ DeliveryStatus.delivered ∷ [])
        && (not d.is_rated && is_some d.rider))

abbrev pub counts_for : (rider : ℕ) → Rating → Bool
counts_for rider r = r.rider == rider && r.is_visible

-- The number and the sum of the visible ratings of a rider.
unfoldable pub number_of : (rider : ℕ) → Dict Rating → ℕ
number_of rider [] = 0
number_of rider ((k, r) ∷ rs) = (if counts_for rider r then 1 else 0) + number_of rider rs

unfoldable pub score_sum : (rider : ℕ) → Dict Rating → ℕ
score_sum rider [] = 0
score_sum rider ((k, r) ∷ rs) = (if counts_for rider r then r.score else 0) + score_sum rider rs

-- `Math.round(average * 10) / 10`, in tenths and in exact arithmetic, and 0 without a rating
abbrev pub rounded_average : (sum number : ℕ) → ℕ
rounded_average sum number = if number == 0 then 0 else (20 * sum + number) / (2 * number)

-- `calculateRiderAverageRating`
unfoldable pub average_of : (rider : ℕ) → Dict Rating → ℕ
average_of rider rs = rounded_average (score_sum rider rs) (number_of rider rs)

abbrev pub with_average : (average total : ℕ) → Rider → Rider
with_average average total r = record r { average_rating = average; total_ratings = total }

-- `calculateRiderAverageRating` and `updateRiderRating`
unfoldable pub refresh_rider : (rider : ℕ) → Handler ⊤
refresh_rider rider s =
    update_rider rider (with_average (average_of rider s.ratings) (number_of rider s.ratings)) s

abbrev pub new_rating : (user id rider score : ℕ) → Option ℕ → (now : ℕ) → Rating
new_rating user id rider score comment now = record {
  delivery_request = id;
  customer = user;
  rider = rider;
  score = score;
  comment = comment;
  is_visible = true;
  created_at = now;
}

abbrev pub rated : Delivery → Delivery
rated d = record d { is_rated = true }

-- From the creation of the rating on.
unfoldable pub store_rating : (new_id id : ℕ) → Rating → Handler ⊤
store_rating new_id id r = do
  modify (λ s. record s { ratings = s.ratings ++ ((new_id, r) ∷ []) })
  update_delivery id rated
  refresh_rider r.rider
  send (Event.rating_created new_id id r.rider)

-- `createRating`; `new_id` is the id of the rating.
unfoldable pub create_rating :
    (user id new_id score : ℕ) → Option ℕ → (positive negative : List ℕ) (now : ℕ) → Handler ⊤
create_rating user id new_id score comment positive negative now = do
  o ← gets (λ s. lookup id s.deliveries)
  require (can_rate user o) HttpError.bad_request
  d ← some_or o HttpError.bad_request
  rider ← some_or d.rider HttpError.bad_request
  require (are_tags positive_tags positive) HttpError.bad_request
  require (are_tags negative_tags negative) HttpError.bad_request
  store_rating new_id id (new_rating user id rider score comment now)

-- The fields of the request that are given replace those of the rating.
abbrev pub revised : (score comment : Option ℕ) → Rating → Rating
revised none none r = r
revised (some n) none r = record r { score = n }
revised none (some c) r = record r { comment = some c }
revised (some n) (some c) r = record r { score = n; comment = some c }

-- `body.score !== undefined && body.score !== rating.score`
abbrev pub is_new_score : Option ℕ → Rating → Bool
is_new_score none r = false
is_new_score (some n) r = not (n == r.score)

-- `updateRating`; 24 hours are 86,400,000 milliseconds.
unfoldable pub update_rating : (user rating_id : ℕ) (score comment : Option ℕ) (now : ℕ) → Handler ⊤
update_rating user rating_id score comment now = do
  o ← gets (λ s. lookup rating_id s.ratings)
  r ← some_or o HttpError.not_found
  require (r.customer == user) HttpError.forbidden
  require (not (ltb (r.created_at + 86_400_000) now)) HttpError.bad_request
  modify (λ s. record s { ratings = update rating_id (revised score comment) s.ratings })
  when (is_new_score score r) (refresh_rider r.rider)

-- ===== src/Tests/RatingRuns.antt =====
-- The theorems on ratings at concrete states.
use fastmotion_delivery.Base.{◌≡◌, refl, none, [], ◌∷◌, arith}
use fastmotion_delivery.Base.Dict.{lookup}
use fastmotion_delivery.Model.{Db, DeliveryStatus, PaymentStatus}
use fastmotion_delivery.Ratings.{create_rating}
use fastmotion_delivery.Ratings.Averages.{IsAveraged, scores, create-IsAveraged}
use fastmotion_delivery.Tests.Data.{with_delivery, taken_delivery}

-- A delivered delivery of the rider 7, whom nobody has rated.
abbrev delivered_db : Db
delivered_db = with_delivery (taken_delivery DeliveryStatus.delivered PaymentStatus.paid)

unrated : delivered_db.ratings ≡ []
unrated = refl

two_riders-IsAveraged : IsAveraged delivered_db
unfolding IsAveraged lookup scores
two_riders-IsAveraged k w e = ground arith

create-IsAveraged_example : IsAveraged (create_rating 30 5 41 4 none (2 ∷ []) [] 100 delivered_db).1
create-IsAveraged_example =
    create-IsAveraged 30 5 41 4 100 none (2 ∷ []) [] delivered_db two_riders-IsAveraged

-- The same state after the rating, which the customer then changes.
abbrev rated_db : Db
rated_db = (create_rating 30 5 41 4 none (2 ∷ []) [] 100 delivered_db).1

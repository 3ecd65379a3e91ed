-- ===== src/Customer/CouponCheck.antt =====
-- apps/user-api/src/delivery/delivery.service.ts: `validateCoupon`.
use fastmotion_delivery.Base.{
  ℕ, ◌+◌, Bool, true, false, not, ◌&&◌, none, some, List, [], ◌∷◌, ◌==◌, leb, ltb, if◌then◌else◌,
}
use fastmotion_delivery.Base.Dict.{count}
use fastmotion_delivery.Model.{Db, Handler, HttpError, pure, gets, some_or, require, ◌>>=◌, ◌>>◌}
use fastmotion_delivery.Customer.Queries.{Catalogue, Coupon, contains, find_coupon_by_code}

-- `usedBy.filter(...).length`
abbrev pub times_used : (user : ℕ) → List ℕ → ℕ
times_used user [] = 0
times_used user (u ∷ us) = (if u == user then 1 else 0) + times_used user us

-- `coupon.usageLimit && coupon.usageCount >= coupon.usageLimit`
abbrev pub is_used_up : Coupon → Bool
is_used_up c = elim c.usage_limit [ none ↦ false | some n ↦ not (n == 0) && leb n c.usage_count ]

abbrev pub is_used_up_by : (user : ℕ) → Coupon → Bool
is_used_up_by user c =
    contains user c.used_by && leb c.usage_limit_per_user (times_used user c.used_by)

-- `total` of `findByCustomer`
abbrev pub orders_of : (user : ℕ) → Db → ℕ
orders_of user s = count (λ k d. d.customer == user) s.deliveries

abbrev pub is_applicable : (user : ℕ) → List ℕ → Bool
is_applicable user [] = true
is_applicable user (u ∷ us) = contains user (u ∷ us)

-- `validateCoupon`
unfoldable pub validate_coupon : Catalogue → (user code now : ℕ) → Handler Coupon
validate_coupon cat user code now = do
  c ← some_or (find_coupon_by_code code now cat.coupons) HttpError.not_found
  require (not (is_used_up c)) HttpError.bad_request
  require (not (is_used_up_by user c)) HttpError.bad_request
  orders ← gets (orders_of user)
  require (not (c.is_first_order_only && ltb 0 orders)) HttpError.bad_request
  require (is_applicable user c.applicable_users) HttpError.bad_request
  pure c

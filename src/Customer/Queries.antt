-- ===== src/Customer/Queries.antt =====
-- apps/user-api/src/delivery/repository/delivery.repository.ts: the documents that a price is made
-- from, and the queries for them. The day and the time of the day of a date, the distance between
-- two places and the one from a place to the centre of a zone are the parameters `World`.
use fastmotion_delivery.Base.{
  ℕ, ◌+◌, ◌*◌, ◌/◌, Bool, false, not, ◌&&◌, ◌||◌, Option, none, some, List, [], ◌∷◌, ◌==◌, leb, ltb,
  if◌then◌else◌, get_or,
}
use fastmotion_delivery.Pricing.{PricingConfig, CouponType}

-- A place is a number that stands for its coordinates, distances are in metres.
pub record World : Type 0 where
  pub between : (pickup dropoff : ℕ) → ℕ
  pub to_zone : (place zone : ℕ) → ℕ
  pub day_of_week : ℕ → ℕ
  pub time_of_day : ℕ → ℕ

-- `radius` is `none` where the centre or the radius is missing.
pub record LocationZone : Type 0 where
  pub id : ℕ
  pub is_active : Bool
  pub priority : ℕ
  pub radius : Option ℕ
  pub price_multiplier : Option ℕ

pub record TimePricing : Type 0 where
  pub is_active : Bool
  pub priority : ℕ
  pub days_of_week : List ℕ
  pub start_time : ℕ
  pub end_time : ℕ
  pub price_multiplier : ℕ
  pub additional_fee : Option ℕ

pub record ItemCategory : Type 0 where
  pub slug : ℕ
  pub is_active : Bool
  pub price_multiplier : Option ℕ
  pub additional_fee : Option ℕ

pub record SpecialHandling : Type 0 where
  pub slug : ℕ
  pub is_active : Bool
  pub additional_fee : Option ℕ

pub record Coupon : Type 0 where
  pub code : ℕ
  pub is_active : Bool
  pub type : CouponType
  pub value : ℕ
  pub max_discount_amount : Option ℕ
  pub valid_from : ℕ
  pub valid_until : ℕ
  pub usage_limit : Option ℕ
  pub usage_count : ℕ
  pub usage_limit_per_user : ℕ
  pub is_first_order_only : Bool
  pub applicable_users : List ℕ
  pub used_by : List ℕ

-- The active configuration is without its two maps, `sizeFees` and `categoryMultipliers`.
pub record Catalogue : Type 0 where
  pub config : Option PricingConfig
  pub size_fees : ℕ → Option ℕ
  pub category_multipliers : ℕ → Option ℕ
  pub zones : List LocationZone
  pub time_pricings : List TimePricing
  pub categories : List ItemCategory
  pub handling : List SpecialHandling
  pub coupons : List Coupon

module _ {A : Type 0} where
  -- `sort({ priority: -1 })`
  unfoldable pub insert_by_priority : (A → ℕ) → A → List A → List A
  insert_by_priority priority x [] = x ∷ []
  insert_by_priority priority x (y ∷ ys) =
      if leb (priority y) (priority x) then x ∷ y ∷ ys else y ∷ insert_by_priority priority x ys

  unfoldable pub by_priority : (A → ℕ) → List A → List A
  by_priority priority [] = []
  by_priority priority (x ∷ xs) = insert_by_priority priority x (by_priority priority xs)

  -- `findOne`, and a loop that returns the first match
  unfoldable pub find_first : (A → Bool) → List A → Option A
  find_first p [] = none
  find_first p (x ∷ xs) = if p x then some x else find_first p xs

abbrev pub contains : ℕ → List ℕ → Bool
contains k [] = false
contains k (x ∷ xs) = k == x || contains k xs

-- A zone without a centre or a radius, or with a radius of nothing, is passed over.
abbrev pub reaches : World → (place : ℕ) → LocationZone → Bool
reaches w place z =
    z.is_active
    && (elim z.radius [ none ↦ false | some r ↦ not (r == 0) && leb (w.to_zone place z.id) r ])

-- `findZoneByCoordinates`
unfoldable pub find_zone_by_coordinates :
    World → (place : ℕ) → List LocationZone → Option LocationZone
find_zone_by_coordinates w place zones =
    find_first (reaches w place) (by_priority (λ z. z.priority) zones)

abbrev pub is_in_force : World → (date : ℕ) → TimePricing → Bool
is_in_force w date t =
    t.is_active
    && (contains (w.day_of_week date) t.days_of_week
        && (leb t.start_time (w.time_of_day date) && ltb (w.time_of_day date) t.end_time))

-- `findTimePricing`
unfoldable pub find_time_pricing : World → (date : ℕ) → List TimePricing → Option TimePricing
find_time_pricing w date ts = find_first (is_in_force w date) (by_priority (λ t. t.priority) ts)

-- `findCategoryBySlug`
abbrev pub find_category_by_slug : (slug : ℕ) → List ItemCategory → Option ItemCategory
find_category_by_slug slug cs = find_first (λ c. c.slug == slug && c.is_active) cs

-- `findHandlingBySlugs`, and the sum of the fees
unfoldable pub handling_fee : (slugs : List ℕ) → List SpecialHandling → ℕ
handling_fee slugs [] = 0
handling_fee slugs (h ∷ hs) =
    (if contains h.slug slugs && h.is_active then get_or h.additional_fee 0 else 0)
    + handling_fee slugs hs

-- `findCouponByCode`
abbrev pub is_current : (code now : ℕ) → Coupon → Bool
is_current code now c =
    c.code == code && (c.is_active && (leb c.valid_from now && leb now c.valid_until))

unfoldable pub find_coupon_by_code : (code now : ℕ) → List Coupon → Option Coupon
find_coupon_by_code code now cs = find_first (is_current code now) cs

-- `estimateDuration`: minutes at 30 km/h, rounded up
abbrev pub estimate_duration : ℕ → ℕ
estimate_duration metres = (metres * 60 + 29_999) / 30_000

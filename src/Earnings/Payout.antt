-- ===== src/Earnings/Payout.antt =====
-- The payout of a rider and the configuration that it depends on. Rates are in ten-thousandths,
-- and `Math.round` of a product is rounded half up.
use fastmotion_delivery.Base.{ℕ, ◌+◌, ◌*◌, ◌/◌, Option, none, some, max, get_or}
use fastmotion_delivery.Model.{PayoutConfig}

-- `Math.round(amount * rate)`
unfoldable pub round_rate : ℕ → ℕ → ℕ
round_rate amount rate = (amount * rate + 5000) / 10_000

-- `computeRiderPayout`
unfoldable pub compute_rider_payout : (total_price rate min : ℕ) → ℕ
compute_rider_payout total_price rate min = max (round_rate total_price rate) min

-- `config?.riderCommissionPercentage ?? default`
abbrev pub config_rate : ℕ → Option PayoutConfig → ℕ
config_rate default none = default
config_rate default (some c) = get_or c.rider_commission_percentage default

-- `config?.minimumRiderPayout ?? 100`
abbrev pub config_min : Option PayoutConfig → ℕ
config_min none = 100
config_min (some c) = get_or c.minimum_rider_payout 100

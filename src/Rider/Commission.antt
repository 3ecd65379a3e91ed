-- ===== src/Rider/Commission.antt =====
-- The commission configuration of the rider service with its five-minute cache.
use fastmotion_delivery.Base.{ℕ, ◌+◌, Bool, true, false, none, some, ltb}
use fastmotion_delivery.Model.{Handler, CommissionCache, pure, modify, ◌>>◌}
use fastmotion_delivery.Earnings.{config_rate, config_min}

abbrev pub cache_ms : ℕ
cache_ms = 300_000

-- `_commissionCache && Date.now() - _commissionCache.ts < 5 * 60 * 1000`
abbrev pub is_fresh : ℕ → CommissionCache → Bool
is_fresh now c = ltb now (c.ts + cache_ms)

-- The lookup that fills the cache.
abbrev pub load_commission : ℕ → Handler (ℕ × ℕ)
load_commission now s =
    let rate = config_rate 7000 s.config in
    let min = config_min s.config in
    (modify
          (λ t. record t { commission_cache = some (record { rate = rate; min = min; ts = now }) })
        >> pure (rate, min))
      s

-- `getCommissionConfig`
unfoldable pub get_commission_config : ℕ → Handler (ℕ × ℕ)
get_commission_config now s = elim s.commission_cache [
  | none ↦ load_commission now s
  | some c ↦ elim (is_fresh now c) [ true ↦ pure (c.rate, c.min) s | false ↦ load_commission now s ]
]

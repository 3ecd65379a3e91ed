-- ===== src/Earnings/Ledger/Credits.antt =====
-- `creditDeliveryEarnings` and the ledger: the payout and its credit.
use fastmotion_delivery.Base.{
  ℕ, ◌+◌, ◌≤◌, ◌≡◌, ◌≢◌, sym, ap, subst, ◌∙◌, ◌⊎◌, inl, inr, true, none, some, [], ◌∷◌, ◌++◌, arith,
  ◌==◌, if◌then◌else◌, Option, Bool-cases, Option-cases,
}
use fastmotion_delivery.Base.Int.{pos, ◌+ℤ◌, ◌-ℤ◌, ◌≤ℤ◌}
use fastmotion_delivery.Base.Dict.{Dict, lookup, update}
use fastmotion_delivery.Model.{Db, Earning, Delivery}
use fastmotion_delivery.Earnings.Payout.{round_rate, compute_rider_payout, config_rate, config_min}
use fastmotion_delivery.Earnings.Credit.{
  credit_delivery_earnings, credit_payout, fee_earning, paid_out, is_credited, commission_earning,
}
use fastmotion_delivery.Earnings.Withdraw.{available_balance, available_of, sum_where}
use fastmotion_delivery.Earnings.Ledger.Sums.{sum-append, held_by}
use fastmotion_delivery.Earnings.Ledger.Hold.{IsNew, append-IsDistinct}
use fastmotion_delivery.Earnings.Ledger.Balance.{IsBalanced, wallets-update, plus_pos}

round_rate-le : (total rate : ℕ) → rate ≤ 10_000 → round_rate total rate ≤ total
unfolding round_rate
round_rate-le total rate r = grind arith

-- The payout is never below the configured minimum; with a rate of at most 100% and a minimum of at
-- most the price it is at most the price, so that the platform's share is not negative and the two
-- shares add up to the price.
pub payout_bounds :
    (total rate min : ℕ)
    → rate ≤ 10_000
    → min ≤ total
    → let payout = compute_rider_payout total rate min in
      (min ≤ payout) × (payout ≤ total) × (pos 0 ≤ℤ pos total -ℤ pos payout)
unfolding compute_rider_payout ◌-ℤ◌
payout_bounds total rate min r m = (
  ground (arith, round_rate-le total rate r),
  ground (arith, round_rate-le total rate r),
  ground (arith, round_rate-le total rate r),
)

is_credited-append :
    (rider delivery id amount : ℕ) (es : Dict Earning)
    → is_credited rider delivery (es ++ ((id, fee_earning rider delivery amount) ∷ [])) ≡ true
unfolding is_credited
is_credited-append rider delivery id amount [] = ground arith
is_credited-append rider delivery id amount ((i, e) ∷ es) =
    ground (arith, is_credited-append rider delivery id amount es)

abbrev get_price : Option Delivery → ℕ
get_price none = 0
get_price (some d) = d.total_price

-- A second credit for the same rider and delivery changes nothing.
pub credit_once :
    (rider delivery id1 id2 : ℕ) (s : Db)
    → let t = (credit_delivery_earnings rider delivery id1 s).1 in
      (credit_delivery_earnings rider delivery id2 t).1 ≡ t
unfolding credit_delivery_earnings credit_payout
credit_once rider delivery id1 id2 s = ground (
  arith,
  is_credited-append rider delivery id1
      (compute_rider_payout (get_price (lookup delivery s.deliveries)) (config_rate 7000 s.config)
        (config_min s.config))
      s.earnings,
)

-- The payout of the delivery.
abbrev payout_at : Db → Delivery → ℕ
payout_at s d = compute_rider_payout d.total_price (config_rate 7000 s.config) (config_min s.config)

credit-writes :
    (rider delivery id : ℕ) (s : Db)
    → let t = (credit_delivery_earnings rider delivery id s).1 in
      (t ≡ s)
      ⊎ ((d : Delivery) × (t ≡ record s {
        earnings = s.earnings ++ ((id, fee_earning rider delivery (payout_at s d)) ∷ []);
        riders = update rider (paid_out (payout_at s d)) s.riders;
        platform_earnings =
            s.platform_earnings ++ (commission_earning rider delivery (payout_at s d) d ∷ []);
      }))
unfolding credit_delivery_earnings credit_payout
credit-writes rider delivery id s = elim (Option-cases (lookup delivery s.deliveries)) [
  | inl e ↦ inl (ground arith)
  | inr (d, e) ↦ elim (Bool-cases (is_credited rider delivery s.earnings)) [
    | inl c ↦ inl (ground arith)
    | inr c ↦ inr (d, ground arith)
  ]
]

credited-available :
    (rider delivery id amount r : ℕ) (es : Dict Earning)
    → available_balance r (es ++ ((id, fee_earning rider delivery amount) ∷ []))
      ≡ available_balance r es + (if rider == r then amount else 0)
unfolding available_balance
credited-available rider delivery id amount r es =
    ground (arith, sum-append (available_of r) es id (fee_earning rider delivery amount))

credited-held :
    (rider delivery id amount ref r : ℕ) (es : Dict Earning)
    → sum_where (held_by ref r) (es ++ ((id, fee_earning rider delivery amount) ∷ []))
      ≡ sum_where (held_by ref r) es
credited-held rider delivery id amount ref r es =
    ground (arith, sum-append (held_by ref r) es id (fee_earning rider delivery amount))

credited-own :
    (rider delivery id amount : ℕ) (es : Dict Earning)
    → available_balance rider (es ++ ((id, fee_earning rider delivery amount) ∷ []))
      ≡ available_balance rider es + amount
credited-own rider delivery id amount es =
    ground (arith, credited-available rider delivery id amount rider es)

credited-others :
    (rider delivery id amount r : ℕ) (es : Dict Earning)
    → r ≢ rider
    → available_balance r (es ++ ((id, fee_earning rider delivery amount) ∷ []))
      ≡ available_balance r es
credited-others rider delivery id amount r es ne =
    ground (arith, credited-available rider delivery id amount r es)

-- A credit keeps the books balanced: the payout is available to the rider and in the wallet. The id
-- of the earning is a new one.
pub credit-IsBalanced :
    (rider delivery id : ℕ) (s : Db)
    → IsNew id s.earnings
    → IsBalanced s
    → IsBalanced (credit_delivery_earnings rider delivery id s).1
credit-IsBalanced rider delivery id s fresh b = elim (credit-writes rider delivery id s) [
  | inl same ↦ subst IsBalanced (sym same) b
  | inr (d, t) ↦
      let n = payout_at s d in
      let more : Dict Earning = s.earnings ++ ((id, fee_earning rider delivery n) ∷ []) in
      subst IsBalanced (sym t) (record {
        wallets =
            wallets-update rider (paid_out n) s.earnings more s.riders
              (λ v e.
                ap (λ z. z +ℤ pos n) e
                ∙ plus_pos (available_balance rider s.earnings) n
                ∙ ap pos (sym (credited-own rider delivery id n s.earnings)))
              (λ r ne. credited-others rider delivery id n r s.earnings ne) b.wallets;
        reserved = λ i w e p r.
            credited-held rider delivery id n w.reference r s.earnings ∙ b.reserved i w e p r;
        distinct = append-IsDistinct id (fee_earning rider delivery n) s.earnings fresh b.distinct;
        references = b.references;
      })
]

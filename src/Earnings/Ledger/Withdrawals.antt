-- ===== src/Earnings/Ledger/Withdrawals.antt =====
-- `withdrawEarnings` and the ledger: when a request goes through, and what it writes.
use fastmotion_delivery.Base.{
  ℕ, ◌+◌, ◌≤◌, ◌≡◌, ◌≢◌, ◌↔◌, sym, ap, subst, ◌∙◌, ◌⊎◌, inl, inr, true, false, none, some, [], ◌∷◌,
  ◌++◌, arith, ◌==◌, ltb, Bool-cases, Option-cases, ◌&&◌, is_some,
}
use fastmotion_delivery.Base.Int.{pos, ◌-ℤ◌}
use fastmotion_delivery.Base.Dict.{Dict, lookup, update, Always, lookup-append_inv}
use fastmotion_delivery.Model.{Db, Rider, Earning, Withdrawal, WithdrawalStatus, is_ok}
use fastmotion_delivery.Earnings.Withdraw.{
  sum_where, find_where, available_of, available_balance, has_pending, hold, withdrawn,
  minimum_withdrawal, hold_and_request, withdraw_earnings,
}
use fastmotion_delivery.Earnings.Ledger.Sums.{held_by}
use fastmotion_delivery.Earnings.Ledger.Hold.{
  IsDistinct, IsNew, counted, find_where-IsFetched, sum-find_where, available-hold, held-hold,
  hold-IsDistinct,
}
use fastmotion_delivery.Earnings.Ledger.Balance.{
  IsBalanced, HasOwnReferences, wallets-update, minus_pos,
}

-- When a request for a payout goes through.
abbrev pub CanWithdraw : (rider : ℕ) → Rider → (amount : ℕ) → Db → Type 0
CanWithdraw rider doc amount s =
    (is_some doc.bank_account_number ≡ true)
    × (is_some doc.bank_name ≡ true)
    × (has_pending rider s.withdrawals ≡ false)
    × (amount ≤ available_balance rider s.earnings)
    × (500 ≤ amount)

-- A request goes through exactly when the rider has a bank account, no pending request and enough
-- available earnings, and asks for the minimum at least.
pub withdraw_iff :
    (rider : ℕ) (doc : Rider) (amount ref new_id id : ℕ) (s : Db)
    → (is_ok (withdraw_earnings rider doc amount ref new_id id s).0 ≡ true)
      ↔ CanWithdraw rider doc amount s
unfolding withdraw_earnings hold_and_request
withdraw_iff rider doc amount ref new_id id s = ground arith

abbrev requested : (rider amount ref bank account : ℕ) → Withdrawal
requested rider amount ref bank account = record {
  rider = rider;
  amount = amount;
  bank_name = bank;
  bank_account_number = account;
  reference = ref;
  status = WithdrawalStatus.pending;
  admin_note = none;
  processed_by = none;
  processed_at = none;
}

-- The earnings after the loop.
abbrev pub held_from : (rider ref new_id amount : ℕ) → Dict Earning → Dict Earning
held_from rider ref new_id amount es =
    hold rider ref new_id (find_where (available_of rider) es) amount es

abbrev after : (rider amount ref new_id id bank account : ℕ) → Db → Db
after rider amount ref new_id id bank account s = record s {
  earnings = held_from rider ref new_id amount s.earnings;
  riders = update rider (withdrawn amount) s.riders;
  withdrawals = s.withdrawals ++ ((id, requested rider amount ref bank account) ∷ []);
}

withdraw-writes :
    (rider : ℕ) (doc : Rider) (amount ref new_id id : ℕ) (s : Db)
    → let t = (withdraw_earnings rider doc amount ref new_id id s).1 in
      (t ≡ s)
      ⊎ ((bank : ℕ) × (account : ℕ) × (amount ≤ available_balance rider s.earnings)
          × (t ≡ after rider amount ref new_id id bank account s))
unfolding withdraw_earnings hold_and_request
withdraw-writes rider doc amount ref new_id id s = elim (Option-cases doc.bank_account_number) [
  | inl e ↦ inl (ground arith)
  | inr (account, e) ↦ elim (Option-cases doc.bank_name) [
    | inl e2 ↦ inl (ground arith)
    | inr (bank, e2) ↦ elim (Bool-cases (has_pending rider s.withdrawals)) [
      | inl h ↦ inl (ground arith)
      | inr h ↦ elim (Bool-cases (ltb (available_balance rider s.earnings) amount)) [
        | inl l ↦ inl (ground arith)
        | inr l ↦ elim (Bool-cases (ltb amount minimum_withdrawal)) [
          | inl m ↦ inl (ground arith)
          | inr m ↦ inr (bank, account, ground arith, ground arith)
        ]
      ]
    ]
  ]
]

-- The ids and the reference of a new request are new: `new Types.ObjectId()`, and a reference of the
-- time and random characters.
pub record IsFresh (ref new_id id : ℕ) (s : Db) : Type 0 where
  pub earning : IsNew new_id s.earnings
  pub request : lookup id s.withdrawals ≡ none
  pub unused : Always (λ _ w. w.reference ≢ ref) s.withdrawals
  pub unheld : (r : ℕ) → sum_where (held_by ref r) s.earnings ≡ 0

module _ (rider ref new_id amount : ℕ) (es : Dict Earning) (distinct : IsDistinct es)
    (enough : amount ≤ available_balance rider es) where
  enough_fetched : amount ≤ sum_where (λ _. true) (find_where (available_of rider) es)
  unfolding available_balance
  enough_fetched = subst (λ n. amount ≤ n) (sym (sum-find_where (available_of rider) es)) enough

  pub held_from-available :
      (r : ℕ)
      → available_balance r (held_from rider ref new_id amount es) + counted (rider == r) amount
        ≡ available_balance r es
  unfolding available_balance
  held_from-available r =
      available-hold rider ref new_id r amount es (find_where (available_of rider) es)
        (find_where-IsFetched (available_of rider) es distinct) enough_fetched

  pub held_from-held :
      (other r : ℕ)
      → sum_where (held_by other r) (held_from rider ref new_id amount es)
        ≡ sum_where (held_by other r) es + counted (ref == other && rider == r) amount
  held_from-held other r =
      held-hold rider ref new_id other r amount es (find_where (available_of rider) es)
        (find_where-IsFetched (available_of rider) es distinct) enough_fetched

  held_from-own :
      available_balance rider es
      ≡ available_balance rider (held_from rider ref new_id amount es) + amount
  held_from-own = ground (arith, held_from-available rider)

  held_from-others :
      (r : ℕ)
      → r ≢ rider
      → available_balance r (held_from rider ref new_id amount es) ≡ available_balance r es
  held_from-others r ne = ground (arith, held_from-available r)

  held_from-kept :
      (other r : ℕ)
      → other ≢ ref
      → sum_where (held_by other r) (held_from rider ref new_id amount es)
        ≡ sum_where (held_by other r) es
  held_from-kept other r ne = ground (arith, held_from-held other r)

  held_from-new :
      (r : ℕ)
      → sum_where (held_by ref r) es ≡ 0
      → sum_where (held_by ref r) (held_from rider ref new_id amount es)
        ≡ counted (rider == r) amount
  held_from-new r zero_before = ground (arith, held_from-held ref r)

references-append :
    (k : ℕ) (x : Withdrawal) (ws : Dict Withdrawal)
    → Always (λ _ w. w.reference ≢ x.reference) ws
    → HasOwnReferences ws
    → HasOwnReferences (ws ++ ((k, x) ∷ []))
references-append k x ws new own i j v w ei ej e =
    go (lookup-append_inv i k ws x v ei) (lookup-append_inv j k ws x w ej)
  where
    go :
        (lookup i ws ≡ some v) ⊎ ((i ≡ k) × (v ≡ x))
        → (lookup j ws ≡ some w) ⊎ ((j ≡ k) × (w ≡ x))
        → i ≡ j
    go (inl a) (inl c) = own i j v w a c e
    go (inl a) (inr (jk, wx)) = absurd (new i v a (e ∙ ap (λ y. y.reference) wx))
    go (inr (ik, vx)) (inl c) = absurd (new j w c (sym e ∙ ap (λ y. y.reference) vx))
    go (inr (ik, vx)) (inr (jk, wx)) = ik ∙ sym jk

-- A request for a payout keeps the books balanced: its amount goes from what is available, and from
-- the wallet, to what is held under its new reference.
pub withdraw-IsBalanced :
    (rider : ℕ) (doc : Rider) (amount ref new_id id : ℕ) (s : Db)
    → IsFresh ref new_id id s
    → IsBalanced s
    → IsBalanced (withdraw_earnings rider doc amount ref new_id id s).1
withdraw-IsBalanced rider doc amount ref new_id id s fresh b =
    elim (withdraw-writes rider doc amount ref new_id id s) [
      | inl same ↦ subst IsBalanced (sym same) b
      | inr (bank, account, enough, t) ↦
          let es = s.earnings in
          let x : Withdrawal = requested rider amount ref bank account in
          subst IsBalanced (sym t) (record {
            wallets =
                wallets-update rider (withdrawn amount) es (held_from rider ref new_id amount es)
                  s.riders
                  (λ v e.
                    ap (λ z. z -ℤ pos amount)
                      (e ∙ ap pos (held_from-own rider ref new_id amount es b.distinct enough))
                    ∙ minus_pos (available_balance rider (held_from rider ref new_id amount es))
                        amount)
                  (held_from-others rider ref new_id amount es b.distinct enough) b.wallets;
            reserved = λ i w e p r. elim (lookup-append_inv i id s.withdrawals x w e) [
              | inl old ↦
                  held_from-kept rider ref new_id amount es b.distinct enough w.reference r
                    (fresh.unused i w old)
                  ∙ b.reserved i w old p r
              | inr (_, wx) ↦
                  subst
                    (λ y.
                      sum_where (held_by y.reference r) (held_from rider ref new_id amount es)
                      ≡ counted (y.rider == r) y.amount)
                    (sym wx)
                    (held_from-new rider ref new_id amount es b.distinct enough r (fresh.unheld r))
            ];
            distinct =
                hold-IsDistinct rider ref new_id (find_where (available_of rider) es) amount es
                  fresh.earning b.distinct;
            references = references-append id x s.withdrawals fresh.unused b.references;
          })
    ]

-- ===== src/Earnings/Withdraw.antt =====
-- `withdrawEarnings`: a request for a payout holds the rider's oldest available earnings.
use fastmotion_delivery.Base.{
  ℕ, ◌+◌, ◌-◌, Bool, true, false, not, ◌&&◌, none, some, [], ◌∷◌, ◌++◌, ltb, leb, ◌==◌,
  if◌then◌else◌,
}
use fastmotion_delivery.Base.Int.{pos, ◌-ℤ◌}
use fastmotion_delivery.Base.Dict.{Dict, update}
use fastmotion_delivery.Model.{
  Rider, Earning, EarningsStatus, Withdrawal, WithdrawalStatus, Handler, HttpError, ⊤, gets,
  some_or, require, modify, update_rider, ◌>>=◌, ◌>>◌,
}

abbrev pub is_available : EarningsStatus → Bool
is_available EarningsStatus.available = true
is_available _ = false

abbrev pub is_held : EarningsStatus → Bool
is_held EarningsStatus.held = true
is_held _ = false

abbrev pub is_pending : WithdrawalStatus → Bool
is_pending WithdrawalStatus.pending = true
is_pending _ = false

-- An aggregation `$match`, `$group: { total: { $sum: '$amount' } }`
unfoldable pub sum_where : (Earning → Bool) → Dict Earning → ℕ
sum_where p [] = 0
sum_where p ((i, e) ∷ es) = (if p e then e.amount else 0) + sum_where p es

-- `find(…)`, oldest first: the collection stands in the order of insertion.
unfoldable pub find_where : (Earning → Bool) → Dict Earning → Dict Earning
find_where p [] = []
find_where p ((i, e) ∷ es) = if p e then (i, e) ∷ find_where p es else find_where p es

abbrev pub available_of : ℕ → Earning → Bool
available_of rider e = e.rider == rider && is_available e.status

unfoldable pub available_balance : ℕ → Dict Earning → ℕ
available_balance rider = sum_where (available_of rider)

-- `withdrawalRequestModel.findOne({ rider, status: PENDING })`
unfoldable pub has_pending : ℕ → Dict Withdrawal → Bool
has_pending rider [] = false
has_pending rider ((i, w) ∷ ws) =
    if w.rider == rider && is_pending w.status then true else has_pending rider ws

abbrev pub hold_whole : ℕ → Earning → Earning
hold_whole ref e = record e { status = EarningsStatus.held; withdrawal_reference = some ref }

abbrev pub keep_part : ℕ → Earning → Earning
keep_part amount e = record e { amount = amount }

abbrev pub held_part : (rider ref amount : ℕ) → Earning → Earning
held_part rider ref amount e = record e {
  rider = rider;
  amount = amount;
  status = EarningsStatus.held;
  withdrawn_at = none;
  withdrawal_reference = some ref;
}

-- The loop over the available earnings that were fetched. An earning larger than what remains is
-- split: `new_id` is the id of the part that is held.
unfoldable pub hold :
    (rider ref new_id : ℕ) (fetched : Dict Earning) (remaining : ℕ) → Dict Earning → Dict Earning
hold rider ref new_id [] remaining es = es
hold rider ref new_id ((i, e) ∷ rest) remaining es =
    let whole = hold rider ref new_id rest (remaining - e.amount) (update i (hold_whole ref) es) in
    let part = hold rider ref new_id rest 0 (
      update i (keep_part (e.amount - remaining)) es
      ++ ((new_id, held_part rider ref remaining e) ∷ [])) in
    if remaining == 0 then es else if leb e.amount remaining then whole else part

abbrev pub minimum_withdrawal : ℕ
minimum_withdrawal = 500

abbrev pub withdrawn : ℕ → Rider → Rider
withdrawn amount r = record r { wallet_balance = r.wallet_balance -ℤ pos amount }

-- The writes of a request that passed the guards.
unfoldable pub hold_and_request : (rider amount ref new_id id bank account : ℕ) → Handler ⊤
hold_and_request rider amount ref new_id id bank account = do
  modify λ s. record s {
    earnings = hold rider ref new_id (find_where (available_of rider) s.earnings) amount s.earnings;
  }
  update_rider rider (withdrawn amount)
  modify λ s. record s {
    withdrawals =
        s.withdrawals
        ++ ((
          id,
          record {
            rider = rider;
            amount = amount;
            bank_name = bank;
            bank_account_number = account;
            reference = ref;
            status = WithdrawalStatus.pending;
            admin_note = none;
            processed_by = none;
            processed_at = none;
          },
        )
            ∷ []);
  }

-- `withdrawEarnings`. `ref` is the generated reference; `new_id` and `id` are the ids of the earning
-- that a split creates and of the request.
unfoldable pub withdraw_earnings : (rider : ℕ) (doc : Rider) (amount ref new_id id : ℕ) → Handler ⊤
withdraw_earnings rider doc amount ref new_id id = do
  account ← some_or doc.bank_account_number HttpError.bad_request
  bank ← some_or doc.bank_name HttpError.bad_request
  pending_exists ← gets (λ s. has_pending rider s.withdrawals)
  require (not pending_exists) HttpError.bad_request
  balance ← gets (λ s. available_balance rider s.earnings)
  require (not (ltb balance amount)) HttpError.bad_request
  require (not (ltb amount minimum_withdrawal)) HttpError.bad_request
  hold_and_request rider amount ref new_id id bank account

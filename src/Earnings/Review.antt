-- ===== src/Earnings/Review.antt =====
-- `approveWithdrawal` and `rejectWithdrawal` of the admin service.
use fastmotion_delivery.Base.{ℕ, Bool, ◌&&◌, Option, none, some, [], ◌∷◌, if◌then◌else◌}
use fastmotion_delivery.Base.Int.{pos, ◌+ℤ◌}
use fastmotion_delivery.Base.Dict.{Dict, lookup, update}
use fastmotion_delivery.Model.{
  Rider, Earning, EarningsStatus, Withdrawal, WithdrawalStatus, Handler, HttpError, ⊤, gets,
  some_or, require, modify, update_rider, ◌>>=◌, ◌>>◌,
}
use fastmotion_delivery.Earnings.Credit.{is_for}
use fastmotion_delivery.Earnings.Withdraw.{is_held, is_pending}

-- `{ withdrawalReference: ref, status: HELD }`
abbrev pub held_for : ℕ → Earning → Bool
held_for ref e = is_for e.withdrawal_reference ref && is_held e.status

-- `updateMany`
unfoldable pub update_where : (Earning → Bool) → (Earning → Earning) → Dict Earning → Dict Earning
update_where p f [] = []
update_where p f ((i, e) ∷ es) = (i, if p e then f e else e) ∷ update_where p f es

abbrev pub settled : ℕ → Earning → Earning
settled now e = record e { status = EarningsStatus.withdrawn; withdrawn_at = some now }

abbrev pub released : Earning → Earning
released e = record e { status = EarningsStatus.available; withdrawal_reference = none }

-- `if (note) withdrawal.adminNote = note`
abbrev pub noted : Option ℕ → Option ℕ → Option ℕ
noted none old = old
noted (some n) old = some n

abbrev pub processed : WithdrawalStatus → (admin now : ℕ) → Option ℕ → Withdrawal → Withdrawal
processed status admin now note w = record w {
  status = status;
  admin_note = noted note w.admin_note;
  processed_by = some admin;
  processed_at = some now;
}

abbrev pub update_withdrawal : ℕ → (Withdrawal → Withdrawal) → Handler ⊤
update_withdrawal k f = modify λ s. record s { withdrawals = update k f s.withdrawals }

abbrev pub find_pending : ℕ → Handler Withdrawal
find_pending id = do
  o ← gets (λ s. lookup id s.withdrawals)
  w ← some_or o HttpError.not_found
  require (is_pending w.status) HttpError.bad_request
  gets (λ _. w)

-- `approveWithdrawal`
unfoldable pub approve_withdrawal : (id admin : ℕ) (note : Option ℕ) (now : ℕ) → Handler ⊤
approve_withdrawal id admin note now = do
  w ← find_pending id
  modify λ s. record s { earnings = update_where (held_for w.reference) (settled now) s.earnings }
  update_withdrawal id (processed WithdrawalStatus.approved admin now note)

abbrev pub restored : ℕ → Rider → Rider
restored amount r = record r { wallet_balance = r.wallet_balance +ℤ pos amount }

-- `rejectWithdrawal`
unfoldable pub reject_withdrawal : (id admin : ℕ) (note : Option ℕ) (now : ℕ) → Handler ⊤
reject_withdrawal id admin note now = do
  w ← find_pending id
  modify λ s. record s { earnings = update_where (held_for w.reference) released s.earnings }
  update_rider w.rider (restored w.amount)
  update_withdrawal id (processed WithdrawalStatus.rejected admin now note)

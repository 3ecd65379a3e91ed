-- ===== src/Tests/EarningsRuns.antt =====
-- The theorems on the riders' earnings at concrete states.
use fastmotion_delivery.Base.{ℕ, ◌≡◌, refl, none, some, arith}
use fastmotion_delivery.Base.Int.{pos}
use fastmotion_delivery.Base.Dict.{lookup}
use fastmotion_delivery.Model.{Db, Rider}
use fastmotion_delivery.Earnings.{
  credit_delivery_earnings, withdraw_earnings, reject_withdrawal, sum_where, available_balance,
}
use fastmotion_delivery.Earnings.Ledger.Balance.{IsBalanced}
use fastmotion_delivery.Earnings.Ledger.Credits.{credit-IsBalanced}
use fastmotion_delivery.Earnings.Ledger.Reviews.{reject-IsBalanced}
use fastmotion_delivery.Earnings.Ledger.Withdrawals.{IsFresh, withdraw-IsBalanced}
use fastmotion_delivery.Tests.Data.{earned_db, rider_doc}

earned-wallets :
    (r : ℕ) (w : Rider)
    → lookup r earned_db.riders ≡ some w
    → w.wallet_balance ≡ pos (available_balance r earned_db.earnings)
unfolding lookup available_balance sum_where
earned-wallets r w e = ground arith

earned-IsBalanced : IsBalanced earned_db
unfolding lookup
earned-IsBalanced = record {
  wallets = earned-wallets;
  reserved = λ i w e. ground arith;
  distinct = ((refl, tt), (tt, tt));
  references = λ i j v w e f g. ground arith;
}

credit-IsBalanced_example : IsBalanced (credit_delivery_earnings 7 5 3 earned_db).1
credit-IsBalanced_example = credit-IsBalanced 7 5 3 earned_db (refl, (refl, tt)) earned-IsBalanced

earned-IsFresh : IsFresh 50 3 9 earned_db
unfolding lookup sum_where
earned-IsFresh = record {
  earning = (refl, (refl, tt));
  request = refl;
  unused = λ i w e. ground arith;
  unheld = λ r. refl;
}

-- A request for 700 of the 1000, by which the second earning is split.
abbrev requested_db : Db
requested_db = (withdraw_earnings 7 (rider_doc 1 1000) 700 50 3 9 earned_db).1

withdraw-IsBalanced_example :
    IsBalanced (withdraw_earnings 7 (rider_doc 1 1000) 700 50 3 9 earned_db).1
withdraw-IsBalanced_example =
    withdraw-IsBalanced 7 (rider_doc 1 1000) 700 50 3 9 earned_db earned-IsFresh earned-IsBalanced

requested-IsBalanced : IsBalanced requested_db
requested-IsBalanced =
    withdraw-IsBalanced 7 (rider_doc 1 1000) 700 50 3 9 earned_db earned-IsFresh earned-IsBalanced

reject-IsBalanced_example : IsBalanced (reject_withdrawal 9 1 none 60 requested_db).1
reject-IsBalanced_example = reject-IsBalanced 9 1 none 60 requested_db requested-IsBalanced

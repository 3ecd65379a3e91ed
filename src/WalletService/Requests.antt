-- ===== src/WalletService/Requests.antt =====
-- libs/common/src/modules/wallet/wallets.service.ts: the requests that create, disable, credit and
-- debit wallets, and sequences of them.
use fastmotion_delivery.Base.{ℕ, Bool, not, Option, List, [], ◌∷◌}
use fastmotion_delivery.Base.Int.{ℤ, ltb_ℤ}
use fastmotion_delivery.Base.Dict.{lookup}
use fastmotion_delivery.Model.{
  Db, TransactionCategory, BalanceType, Handler, HttpError, ⊤, gets, some_or, require, ◌>>=◌, ◌>>◌,
}
use fastmotion_delivery.WalletService.Transfer.{
  create_wallet, disable_and_lock_wallet, credit_wallet, debit_wallet,
}

-- The requests that end in a credit or a debit; references are given.
pub data WalletRequest : Type 0 where
  create disable : (user : ℕ) → WalletRequest
  deposit withdraw : (saves : Bool) (user : ℕ) (amount : ℤ) (reference : Option ℕ) → WalletRequest
  refund admin_credit admin_debit :
      (saves : Bool) (user : ℕ) (amount : ℤ) → BalanceType → (reference : Option ℕ) → WalletRequest

-- `processDeposit`
unfoldable pub process_deposit : (saves : Bool) (user : ℕ) (amount : ℤ) → Option ℕ → Handler ⊤
process_deposit saves user amount reference =
    credit_wallet saves user amount TransactionCategory.deposit BalanceType.deposit reference

-- `processWithdrawal`
unfoldable pub process_withdrawal : (saves : Bool) (user : ℕ) (amount : ℤ) → Option ℕ → Handler ⊤
process_withdrawal saves user amount reference = do
  o ← gets (λ s. lookup user s.wallets)
  w ← some_or o HttpError.not_found
  require (not (ltb_ℤ w.withdrawable_balance amount)) HttpError.bad_request
  debit_wallet saves user amount TransactionCategory.withdrawal BalanceType.withdrawable reference

-- `createWallet`, `disableAndLockWallet`, `processDeposit`, `processWithdrawal`, `processRefund`,
-- `adminCreditWallet` and `adminDebitWallet`
unfoldable pub ask_wallet : WalletRequest → Handler ⊤
ask_wallet (WalletRequest.create user) = create_wallet user
ask_wallet (WalletRequest.disable user) = disable_and_lock_wallet user
ask_wallet (WalletRequest.deposit saves user amount reference) =
    process_deposit saves user amount reference
ask_wallet (WalletRequest.withdraw saves user amount reference) =
    process_withdrawal saves user amount reference
ask_wallet (WalletRequest.refund saves user amount kind reference) =
    credit_wallet saves user amount TransactionCategory.refund kind reference
ask_wallet (WalletRequest.admin_credit saves user amount kind reference) =
    credit_wallet saves user amount TransactionCategory.bakery_order_deposit kind reference
ask_wallet (WalletRequest.admin_debit saves user amount kind reference) =
    debit_wallet saves user amount TransactionCategory.adjustment kind reference

unfoldable pub ask_wallets : List WalletRequest → Db → Db
ask_wallets [] s = s
ask_wallets (q ∷ qs) s = ask_wallets qs (ask_wallet q s).1

-- ===== src/WalletService/Verify.antt =====
-- libs/common/src/modules/wallet/transaction.service.ts: verifyAndUpdate and reverseTransaction.
use fastmotion_delivery.Base.{
  ℕ, zero, suc, Bool, false, not, Option, none, some, List, [], ◌∷◌, ◌==◌, if◌then◌else◌, get_elem?,
  is_some,
}
use fastmotion_delivery.Base.Int.{ℤ, pos, ◌+ℤ◌, ◌-ℤ◌}
use fastmotion_delivery.Model.{
  Wallet, WalletTransaction, TransactionType, TransactionStatus, Handler, HttpError, ⊤, pure, gets,
  some_or, require, modify, when, ◌>>=◌, ◌>>◌,
}
use fastmotion_delivery.Payment.{update_wallet, is_completed}
use fastmotion_delivery.WalletService.Transfer.{create_transaction}

-- The statuses that the payment provider answers with.
pub data ProviderStatus : Type 0 where
  paid pending failed other : ProviderStatus

pub data MTransactionStatus : Type 0 where
  success pending failed : MTransactionStatus

-- `checkTrxnStatus`, with the values of MONNIFY_CONSTANTS.ResponseCode: `PendingResponseCode` is
-- 'FAILED' and `FailedResponseCode` is 'PENDING'.
abbrev pub check_trxn_status : ProviderStatus → Option MTransactionStatus
check_trxn_status ProviderStatus.paid = some MTransactionStatus.success
check_trxn_status ProviderStatus.failed = some MTransactionStatus.pending
check_trxn_status ProviderStatus.pending = some MTransactionStatus.failed
check_trxn_status ProviderStatus.other = none

abbrev pub has_reference : ℕ → WalletTransaction → Bool
has_reference r t = elim t.reference [ none ↦ false | some j ↦ j == r ]

-- `findOne({ reference })`
unfoldable pub find_reference : ℕ → List WalletTransaction → Option WalletTransaction
find_reference r [] = none
find_reference r (t ∷ ts) = if has_reference r t then some t else find_reference r ts

-- `findOneAndUpdate({ reference }, …)`
unfoldable pub update_reference :
    ℕ → (WalletTransaction → WalletTransaction) → List WalletTransaction → List WalletTransaction
update_reference r f [] = []
update_reference r f (t ∷ ts) = if has_reference r t then f t ∷ ts else t ∷ update_reference r f ts

abbrev pub in_status : TransactionStatus → WalletTransaction → WalletTransaction
in_status x t = record t { status = x }

abbrev pub update_transaction : ℕ → (WalletTransaction → WalletTransaction) → Handler ⊤
update_transaction r f = modify λ s. record s { transactions = update_reference r f s.transactions }

-- The update of the wallet: the balances that the transaction was created with.
abbrev pub paid_in : WalletTransaction → Wallet → Wallet
paid_in t w = record w {
  deposit_balance = t.deposit_balance_after;
  total_balance = t.total_balance_after;
  total_deposited = w.total_deposited +ℤ pos t.amount;
}

-- A change of the transaction at a place of the collection.
unfoldable pub update_at :
    ℕ → (WalletTransaction → WalletTransaction) → List WalletTransaction → List WalletTransaction
update_at n f [] = []
update_at zero f (t ∷ ts) = f t ∷ ts
update_at (suc n) f (t ∷ ts) = t ∷ update_at n f ts

abbrev pub reversed : (now : ℕ) → WalletTransaction → WalletTransaction
reversed now t = record t { status = TransactionStatus.reversed; reversed_at = some now }

-- A type that is read from the database is a text, and is compared with a number of the enum:
-- `same` is that comparison.
module _ (same : TransactionType → TransactionType → Bool) where
  unfoldable pub settle_transaction : (reference : ℕ) → WalletTransaction → Handler ⊤
  settle_transaction reference t = do
    update_transaction reference (in_status TransactionStatus.completed)
    when (same t.type TransactionType.credit) (update_wallet t.wallet (paid_in t))

  -- `verifyAndUpdate`; `answer` is what the provider answers, if it does.
  unfoldable pub verify_and_update : (reference : ℕ) (answer : Option ProviderStatus) → Handler ⊤
  verify_and_update reference answer = do
    a ← some_or answer HttpError.unavailable
    o ← gets (λ s. find_reference reference s.transactions)
    elim (check_trxn_status a) [
      | some MTransactionStatus.success ↦ elim o [
        | none ↦ pure tt
        | some t ↦ settle_transaction reference t
      ]
      | some MTransactionStatus.failed ↦
          update_transaction reference (in_status TransactionStatus.failed)
      | some MTransactionStatus.pending ↦ pure tt
      | none ↦ pure tt
    ]

  abbrev pub opposite : TransactionType → TransactionType
  opposite x =
      if same x TransactionType.credit then TransactionType.debit else TransactionType.credit

  -- The balances after the reversal, of one balance: those of before the transaction.
  abbrev pub taken_back : TransactionType → (before after : ℤ) → ℤ
  taken_back x before after =
      if same x TransactionType.credit
      then after -ℤ (after -ℤ before)
      else after +ℤ (before -ℤ after)

  abbrev pub reversal : (id : ℕ) (reference : ℕ) → WalletTransaction → WalletTransaction
  reversal id reference t = record t {
    type = opposite t.type;
    status = TransactionStatus.completed;
    deposit_balance_before = t.deposit_balance_after;
    deposit_balance_after = taken_back t.type t.deposit_balance_before t.deposit_balance_after;
    withdrawable_balance_before = t.withdrawable_balance_after;
    withdrawable_balance_after =
        taken_back t.type t.withdrawable_balance_before t.withdrawable_balance_after;
    total_balance_before = t.total_balance_after;
    total_balance_after =
        if same t.type TransactionType.credit
        then t.total_balance_after -ℤ pos t.amount
        else t.total_balance_after +ℤ pos t.amount;
    reference = some reference;
    reversed_at = none;
    reversal_of = some id;
  }

  -- `reverseTransaction`; `reference` stands for the text made of the reference of the transaction.
  unfoldable pub reverse_transaction : (saves : Bool) (id reference now : ℕ) → Handler ⊤
  reverse_transaction saves id reference now = do
    o ← gets (λ s. get_elem? s.transactions id)
    t ← some_or o HttpError.not_found
    require (is_completed t.status) HttpError.bad_request
    require (not (is_some t.reversed_at)) HttpError.bad_request
    modify (λ s. record s { transactions = update_at id (reversed now) s.transactions })
    create_transaction saves (reversal id reference t)

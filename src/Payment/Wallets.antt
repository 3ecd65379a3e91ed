-- ===== src/Payment/Wallets.antt =====
-- apps/user-api/src/payment/repository/payment.repository.ts: wallets, their transactions, and the
-- three writes to them.
use fastmotion_delivery.Base.{
  ℕ, ◌+◌, Bool, true, false, ◌&&◌, Option, none, some, List, [], ◌∷◌, ◌++◌, ◌==◌, if◌then◌else◌,
}
use fastmotion_delivery.Base.Int.{ℤ, pos, ◌+ℤ◌, ◌-ℤ◌}
use fastmotion_delivery.Base.Dict.{Dict, lookup, update}
use fastmotion_delivery.Model.{
  Payment, Wallet, WalletTransaction, TransactionType, TransactionCategory, BalanceType,
  TransactionStatus, Handler, HttpError, ⊤, pure, gets, some_or, modify, ◌>>=◌, ◌>>◌,
}

abbrev pub new_wallet : Wallet
new_wallet = record {
  deposit_balance = pos 0;
  withdrawable_balance = pos 0;
  total_balance = pos 0;
  is_active = true;
  is_locked = false;
  total_deposited = pos 0;
  total_withdrawn = pos 0;
}

-- `getOrCreateWallet`
unfoldable pub get_or_create_wallet : (user : ℕ) → Handler Wallet
get_or_create_wallet user s = elim (lookup user s.wallets) [
  | some w ↦ pure w s
  | none ↦
      (modify (λ t. record t { wallets = t.wallets ++ ((user, new_wallet) ∷ []) })
          >> pure new_wallet)
        s
]

-- `updateWalletBalance` with -amount and 0
abbrev pub debited : ℕ → Wallet → Wallet
debited amount w = record w {
  deposit_balance = w.deposit_balance -ℤ pos amount;
  total_balance = w.total_balance -ℤ pos amount;
}

-- `updateWalletBalance` with amount and 0, and the `$inc` of `processWalletFunding`
abbrev pub funded : ℕ → Wallet → Wallet
funded amount w = record w {
  deposit_balance = w.deposit_balance +ℤ pos amount;
  total_balance = w.total_balance +ℤ pos amount;
  total_deposited = w.total_deposited +ℤ pos amount;
}

abbrev pub update_wallet : ℕ → (Wallet → Wallet) → Handler ⊤
update_wallet user f = modify λ s. record s { wallets = update user f s.wallets }

abbrev pub create_wallet_transaction : WalletTransaction → Handler ⊤
create_wallet_transaction t = modify λ s. record s { transactions = s.transactions ++ (t ∷ []) }

abbrev pub debit_record : (user amount : ℕ) → TransactionCategory → Wallet → WalletTransaction
debit_record user amount category w = record {
  user = user;
  wallet = user;
  type = TransactionType.debit;
  category = category;
  amount = amount;
  balance_type = BalanceType.deposit;
  status = TransactionStatus.completed;
  deposit_balance_before = w.deposit_balance;
  deposit_balance_after = w.deposit_balance -ℤ pos amount;
  withdrawable_balance_before = w.withdrawable_balance;
  withdrawable_balance_after = w.withdrawable_balance;
  total_balance_before = w.total_balance;
  total_balance_after = w.total_balance -ℤ pos amount;
  reference = none;
  reversed_at = none;
  reversal_of = none;
}

abbrev pub credit_record :
    (user amount : ℕ) → TransactionCategory → (reference : ℕ) → Wallet → WalletTransaction
credit_record user amount category reference w = record {
  user = user;
  wallet = user;
  type = TransactionType.credit;
  category = category;
  amount = amount;
  balance_type = BalanceType.deposit;
  status = TransactionStatus.completed;
  deposit_balance_before = w.deposit_balance;
  deposit_balance_after = w.deposit_balance +ℤ pos amount;
  withdrawable_balance_before = w.withdrawable_balance;
  withdrawable_balance_after = w.withdrawable_balance;
  total_balance_before = w.total_balance;
  total_balance_after = w.total_balance +ℤ pos amount;
  reference = some reference;
  reversed_at = none;
  reversal_of = none;
}

-- `processWalletPayment`; `w` is the wallet as the caller read it.
unfoldable pub process_wallet_payment :
    (user : ℕ) (w : Wallet) (amount : ℕ) → TransactionCategory → Handler ⊤
process_wallet_payment user w amount category = do
  create_wallet_transaction (debit_record user amount category w)
  update_wallet user (debited amount)

-- `processWalletFunding`
unfoldable pub process_wallet_funding : (user amount reference : ℕ) → Handler ⊤
process_wallet_funding user amount reference = do
  o ← gets (λ s. lookup user s.wallets)
  fresh ← some_or o HttpError.unavailable
  update_wallet user (funded amount)
  create_wallet_transaction (credit_record user amount TransactionCategory.deposit reference fresh)

-- `processRefund` of the repository
unfoldable pub credit_refund : (user : ℕ) (w : Wallet) (amount reference : ℕ) → Handler ⊤
credit_refund user w amount reference = do
  create_wallet_transaction (credit_record user amount TransactionCategory.refund reference w)
  update_wallet user (funded amount)

abbrev pub is_debit : TransactionType → Bool
is_debit TransactionType.debit = true
is_debit TransactionType.credit = false

abbrev pub is_completed : TransactionStatus → Bool
is_completed TransactionStatus.completed = true
is_completed _ = false

-- `$sum` of the amounts of a user's completed transactions of one type
unfoldable pub sum_type : (debits : Bool) (user : ℕ) → List WalletTransaction → ℕ
sum_type debits user [] = 0
sum_type debits user (t ∷ ts) =
    (if t.user == user && is_completed t.status
      then if is_debit t.type
        then if debits then t.amount else 0
        else if debits
        then 0
        else t.amount
      else 0)
    + sum_type debits user ts

-- `computeWalletBalance`
unfoldable pub compute_wallet_balance : ℕ → List WalletTransaction → ℤ
compute_wallet_balance user ts = pos (sum_type false user ts) -ℤ pos (sum_type true user ts)

-- `findOne({ deliveryRequest, isRefund: false })`, with the reference of the payment
unfoldable pub find_payment_by_delivery : ℕ → Dict Payment → Option (ℕ × Payment)
find_payment_by_delivery k [] = none
find_payment_by_delivery k ((r, p) ∷ ps) =
    if (elim p.delivery_request [ none ↦ false | some j ↦ j == k ])
      && (if p.is_refund then false else true)
    then some (r, p)
    else find_payment_by_delivery k ps

-- `walletTransactionModel.findOne({ reference })`
unfoldable pub has_transaction : ℕ → List WalletTransaction → Bool
has_transaction reference [] = false
has_transaction reference (t ∷ ts) =
    if (elim t.reference [ none ↦ false | some r ↦ r == reference ])
    then true
    else has_transaction reference ts

abbrev pub create_payment : ℕ → Payment → Handler ⊤
create_payment reference p = modify λ s. record s { payments = s.payments ++ ((reference, p) ∷ []) }

abbrev pub update_payment : ℕ → (Payment → Payment) → Handler ⊤
update_payment reference f = modify λ s. record s { payments = update reference f s.payments }

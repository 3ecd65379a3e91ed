-- ===== src/WalletService/Transfer.antt =====
-- libs/common/src/modules/wallet/wallets.service.ts, with createTransaction of
-- transaction.service.ts: wallets that are credited and debited under a lock.
use fastmotion_delivery.Base.{
  ℕ, ◌/◌, Bool, true, false, not, Option, none, some, [], ◌∷◌, ◌++◌, if◌then◌else◌,
}
use fastmotion_delivery.Base.Int.{ℤ, pos, pos_part, ◌+ℤ◌, ◌-ℤ◌, ltb_ℤ, leb_ℤ}
use fastmotion_delivery.Base.Dict.{lookup}
use fastmotion_delivery.Model.{
  Wallet, WalletTransaction, TransactionType, TransactionCategory, BalanceType, TransactionStatus,
  Handler, HttpError, ok, err, ⊤, pure, throw, gets, some_or, require, modify, ◌>>=◌, ◌>>◌,
}
use fastmotion_delivery.Payment.{new_wallet, update_wallet, create_wallet_transaction}

-- The deposit and the withdrawable balance of a wallet.
pub record Balances : Type 0 where
  pub deposit : ℤ
  pub withdrawable : ℤ

abbrev pub balances_of : Wallet → Balances
balances_of w = record { deposit = w.deposit_balance; withdrawable = w.withdrawable_balance }

-- `createWallet`: a user has one wallet.
unfoldable pub create_wallet : (user : ℕ) → Handler ⊤
create_wallet user s = elim (lookup user s.wallets) [
  | some w ↦ pure tt s
  | none ↦ modify (λ t. record t { wallets = t.wallets ++ ((user, new_wallet) ∷ []) }) s
]

abbrev pub locked : Bool → Wallet → Wallet
locked b w = record w { is_locked = b }

-- `disableAndLockWallet`
unfoldable pub disable_and_lock_wallet : (user : ℕ) → Handler ⊤
disable_and_lock_wallet user =
    update_wallet user (λ w. record w { is_active = false; is_locked = true })

-- The balances after a credit. Of an odd amount that is split between both the source adds half a naira
-- to each; in whole naira each half is rounded down here, so that one naira is left out.
abbrev pub credited : BalanceType → (amount : ℕ) → Balances → Balances
credited BalanceType.deposit amount b = record b { deposit = b.deposit +ℤ pos amount }
credited BalanceType.withdrawable amount b = record b {
  withdrawable = b.withdrawable +ℤ pos amount;
}
credited BalanceType.both amount b = record b {
  deposit = b.deposit +ℤ pos (amount / 2);
  withdrawable = b.withdrawable +ℤ pos (amount / 2);
}

-- The balances after a debit: of both, the deposit goes first.
abbrev pub charged : BalanceType → (amount : ℕ) → Balances → Balances
charged BalanceType.deposit amount b = record b { deposit = b.deposit -ℤ pos amount }
charged BalanceType.withdrawable amount b = record b { withdrawable = b.withdrawable -ℤ pos amount }
charged BalanceType.both amount b =
    if leb_ℤ (pos amount) b.deposit
    then record b { deposit = b.deposit -ℤ pos amount }
    else record { deposit = pos 0; withdrawable = b.withdrawable -ℤ (pos amount -ℤ b.deposit) }

-- The balance that a debit is checked against.
abbrev pub balance_for : BalanceType → Wallet → ℤ
balance_for BalanceType.deposit w = w.deposit_balance
balance_for BalanceType.withdrawable w = w.withdrawable_balance
balance_for BalanceType.both w = w.total_balance

abbrev pub counts_withdrawn : TransactionCategory → Bool
counts_withdrawn TransactionCategory.withdrawal = true
counts_withdrawn _ = false

-- The update of the wallet at the end: absolute balances, and the lock released.
abbrev pub with_balances : Balances → (withdrawn : ℤ) → Wallet → Wallet
with_balances b withdrawn w = record w {
  deposit_balance = b.deposit;
  withdrawable_balance = b.withdrawable;
  total_balance = b.deposit +ℤ b.withdrawable;
  is_locked = false;
  total_withdrawn = withdrawn;
}

-- What `createTransaction` is given; `w` is the wallet as it was read.
abbrev pub transfer_record :
    (user : ℕ)
    → TransactionType
    → TransactionCategory
    → BalanceType
    → (amount : ℕ) → Option ℕ
    → (w : Wallet) (b : Balances) → WalletTransaction
transfer_record user type category kind amount reference w b = record {
  user = user;
  wallet = user;
  type = type;
  category = category;
  balance_type = kind;
  status = TransactionStatus.completed;
  amount = amount;
  deposit_balance_before = w.deposit_balance;
  deposit_balance_after = b.deposit;
  withdrawable_balance_before = w.withdrawable_balance;
  withdrawable_balance_after = b.withdrawable;
  total_balance_before = w.total_balance;
  total_balance_after = b.deposit +ℤ b.withdrawable;
  reference = reference;
  reversed_at = none;
  reversal_of = none;
}

-- `createTransaction`; `saves` tells whether the save succeeds.
unfoldable pub create_transaction : (saves : Bool) → WalletTransaction → Handler ⊤
create_transaction saves t =
    if saves then create_wallet_transaction t else throw HttpError.unavailable

-- `catch (error) { unlock; throw error; }`
unfoldable pub or_unlock : (user : ℕ) → Handler ⊤ → Handler ⊤
or_unlock user m s =
    let (r, t) = m s in
    elim r [ ok a ↦ (ok a, t) | err e ↦ (update_wallet user (locked false) >> throw e) t ]

-- The checks of a credit, up to the lock.
unfoldable pub credit_check : (user : ℕ) (amount : ℤ) → Handler Wallet
credit_check user amount = do
  require (ltb_ℤ (pos 0) amount) HttpError.bad_request
  o ← gets (λ s. lookup user s.wallets)
  w ← some_or o HttpError.not_found
  require w.is_active HttpError.bad_request
  require (not w.is_locked) HttpError.conflict
  pure w

-- From the lock on; `w` is the wallet that the checks read.
unfoldable pub credit_commit :
    (saves : Bool) (user amount : ℕ)
    → TransactionCategory
    → BalanceType
    → Option ℕ
    → (w : Wallet) → Handler ⊤
credit_commit saves user amount category kind reference w = do
  update_wallet user (locked true)
  let b = credited kind amount (balances_of w)
  let t = transfer_record user TransactionType.credit category kind amount reference w b
  or_unlock user
      (do create_transaction saves t; update_wallet user (λ v. with_balances b v.total_withdrawn v))

-- `creditWallet`
unfoldable pub credit_wallet :
    (saves : Bool) (user : ℕ) (amount : ℤ)
    → TransactionCategory
    → BalanceType
    → Option ℕ
    → Handler ⊤
credit_wallet saves user amount category kind reference = do
  w ← credit_check user amount
  credit_commit saves user (pos_part amount) category kind reference w

-- The checks of a debit, up to the lock.
unfoldable pub debit_check : (user : ℕ) (amount : ℤ) → BalanceType → Handler Wallet
debit_check user amount kind = do
  w ← credit_check user amount
  require (not (ltb_ℤ (balance_for kind w) amount)) HttpError.bad_request
  pure w

unfoldable pub debit_commit :
    (saves : Bool) (user amount : ℕ)
    → TransactionCategory
    → BalanceType
    → Option ℕ
    → (w : Wallet) → Handler ⊤
debit_commit saves user amount category kind reference w = do
  update_wallet user (locked true)
  let b = charged kind amount (balances_of w)
  let t = transfer_record user TransactionType.debit category kind amount reference w b
  or_unlock user (do
    create_transaction saves t
    update_wallet user (λ v.
        with_balances b
          (if counts_withdrawn category then w.total_withdrawn +ℤ pos amount else v.total_withdrawn)
          v))

-- `debitWallet`
unfoldable pub debit_wallet :
    (saves : Bool) (user : ℕ) (amount : ℤ)
    → TransactionCategory
    → BalanceType
    → Option ℕ
    → Handler ⊤
debit_wallet saves user amount category kind reference = do
  w ← debit_check user amount kind
  debit_commit saves user (pos_part amount) category kind reference w

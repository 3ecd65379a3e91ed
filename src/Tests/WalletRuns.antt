-- ===== src/Tests/WalletRuns.antt =====
-- The theorems on the wallet service at concrete states.
use fastmotion_delivery.Base.{◌≡◌, refl, true, false, none, some, List, [], ◌∷◌, arith}
use fastmotion_delivery.Base.Int.{pos, ◌+ℤ◌}
use fastmotion_delivery.Base.Dict.{lookup}
use fastmotion_delivery.Model.{Db, TransactionCategory, BalanceType, is_ok}
use fastmotion_delivery.WalletService.{WalletRequest, ask_wallets, credit_wallet, debit_wallet}
use fastmotion_delivery.WalletService.Sound.{IsSound, AllSound, ask_wallets-AllSound}
use fastmotion_delivery.WalletService.Outcomes.{unsaved_undone, credit_then_debit}
use fastmotion_delivery.Tests.Data.{empty_db, wallet_doc}

abbrev wallets_db : Db
wallets_db = record empty_db { wallets = (30, wallet_doc 3000) ∷ [] }

wallet_doc-IsSound : IsSound (wallet_doc 3000)
unfolding ◌+ℤ◌
wallet_doc-IsSound = record { deposit = omega arith; withdrawable = omega arith; total = refl }

wallets-AllSound : AllSound wallets_db
unfolding lookup ◌+ℤ◌
wallets-AllSound u w e = ground arith

-- A deposit, a refund of both balances that cannot be saved, a debit of both, and a withdrawal.
abbrev asks : List WalletRequest
asks =
    WalletRequest.deposit true 30 (pos 500) none
    ∷ WalletRequest.refund false 30 (pos 200) BalanceType.both none
    ∷ WalletRequest.admin_debit true 30 (pos 3400) BalanceType.both none
    ∷ WalletRequest.withdraw true 30 (pos 10) none
    ∷ []

ask_wallets-AllSound_example : AllSound (ask_wallets asks wallets_db)
ask_wallets-AllSound_example = ask_wallets-AllSound asks wallets_db wallets-AllSound

unsaved_undone_example :
    let x =
      credit_wallet false 30
        (pos 500)
        TransactionCategory.deposit
        BalanceType.deposit
        none
        wallets_db in
    (is_ok x.0 ≡ false)
    × ((v : _) → lookup v x.1.wallets ≡ lookup v wallets_db.wallets)
    × (x.1.transactions ≡ wallets_db.transactions)
unsaved_undone_example =
    unsaved_undone 30 (pos 500) TransactionCategory.deposit BalanceType.deposit none wallets_db

credit_then_debit_example :
    let x =
      credit_wallet true 30
        (pos 500)
        TransactionCategory.deposit
        BalanceType.deposit
        none
        wallets_db in
    let y =
      debit_wallet true 30 (pos 500) TransactionCategory.adjustment BalanceType.deposit none x.1 in
    (is_ok x.0 ≡ true) × (is_ok y.0 ≡ true) × (lookup 30 y.1.wallets ≡ some (wallet_doc 3000))
unfolding lookup
credit_then_debit_example =
    credit_then_debit 30 499 TransactionCategory.deposit TransactionCategory.adjustment
      BalanceType.deposit none none (wallet_doc 3000) wallets_db refl wallet_doc-IsSound refl refl
      refl (λ e. cc)

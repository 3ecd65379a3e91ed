-- ===== src/WalletService/Answers.antt =====
-- What the answers of the payment provider come to, and what a reversal records.
use fastmotion_delivery.Base.{
  ℕ, zero, suc, ◌≡◌, inl, inr, refl, Bool, true, false, none, some, List, [], ◌∷◌, ◌++◌, arith,
  Bool-cases, get_elem?,
}
use fastmotion_delivery.Base.Int.{ℤ, pos, ◌+ℤ◌, ◌-ℤ◌, int_laws}
use fastmotion_delivery.Base.Dict.{lookup, lookup-update_self}
use fastmotion_delivery.Model.{
  Db, Wallet, WalletTransaction, TransactionType, TransactionStatus, is_ok,
}
use fastmotion_delivery.Payment.{is_completed}
use fastmotion_delivery.WalletService.Transfer.{create_transaction}
use fastmotion_delivery.WalletService.Verify.{
  ProviderStatus, find_reference, update_reference, in_status, paid_in, verify_and_update,
  settle_transaction, taken_back, reversal, reversed, reverse_transaction, update_at,
}

get_elem?-update_at :
    (n : ℕ) (f : WalletTransaction → WalletTransaction) (ts more : List WalletTransaction)
    {t : WalletTransaction}
    → get_elem? ts n ≡ some t
    → get_elem? (update_at n f ts ++ more) n ≡ some (f t)
unfolding update_at
get_elem?-update_at n f [] more e = cc
get_elem?-update_at zero f (x ∷ ts) more e = ground arith
get_elem?-update_at (suc n) f (x ∷ ts) more e = get_elem?-update_at n f ts more e

after_sub : (a b : ℤ) → a -ℤ (a -ℤ b) ≡ b
after_sub a b = omega int_laws

after_add : (a b : ℤ) → a +ℤ (b -ℤ a) ≡ b
after_add a b = omega int_laws

module _ (same : TransactionType → TransactionType → Bool) where
  taken_back_lem : (x : TransactionType) (b a : ℤ) → taken_back same x b a ≡ b
  taken_back_lem x b a = elim (Bool-cases (same x TransactionType.credit)) [
    | inl e ↦ rw e (after_sub a b)
    | inr e ↦ rw e (after_add a b)
  ]

  -- A reversal records that both balances go back to what they were before the transaction, marks the
  -- transaction as reversed and changes no wallet; a second reversal is refused.
  pub reversed_once :
      (id r r' now later : ℕ) (t : WalletTransaction) (s : Db)
      → get_elem? s.transactions id ≡ some t
      → is_completed t.status ≡ true
      → t.reversed_at ≡ none
      → let x = reverse_transaction same true id r now s in
        let u = reversal same id r t in
        (is_ok x.0 ≡ true)
        × (x.1.transactions ≡ update_at id (reversed now) s.transactions ++ (u ∷ []))
        × (u.deposit_balance_after ≡ t.deposit_balance_before)
        × (u.withdrawable_balance_after ≡ t.withdrawable_balance_before)
        × (x.1.wallets ≡ s.wallets)
        × (is_ok (reverse_transaction same true id r' later x.1).0 ≡ false)
  unfolding reverse_transaction create_transaction
  reversed_once id r r' now later t s e c n = (
    ground arith,
    ground arith,
    taken_back_lem t.type t.deposit_balance_before t.deposit_balance_after,
    taken_back_lem t.type t.withdrawable_balance_before t.withdrawable_balance_after,
    ground arith,
    ground (
      arith,
      get_elem?-update_at id (reversed now) s.transactions (reversal same id r t ∷ []) {t = t},
    ),
  )

  -- A payment that the provider calls pending is recorded as failed, and one that it calls failed
  -- leaves everything as it was.
  pub pending_fails :
      (r : ℕ) (s : Db)
      → ((verify_and_update same r (some ProviderStatus.pending) s).1.transactions
          ≡ update_reference r (in_status TransactionStatus.failed) s.transactions)
        × ((verify_and_update same r (some ProviderStatus.failed) s).1 ≡ s)
  unfolding verify_and_update
  pending_fails r s = (refl, refl)

  -- A payment that is verified again, though it is completed, sets the deposit balance of its wallet
  -- back to the one that it was recorded with, whatever the wallet holds by then.
  pub verified_again :
      (r : ℕ) (t : WalletTransaction) (w : Wallet) (s : Db)
      → find_reference r s.transactions ≡ some t
      → same t.type TransactionType.credit ≡ true
      → lookup t.wallet s.wallets ≡ some w
      → lookup t.wallet (verify_and_update same r (some ProviderStatus.paid) s).1.wallets
        ≡ some (record w {
          deposit_balance = t.deposit_balance_after;
          total_balance = t.total_balance_after;
          total_deposited = w.total_deposited +ℤ pos t.amount;
        })
  unfolding verify_and_update settle_transaction
  verified_again r t w s f c e = ground (arith, lookup-update_self t.wallet (paid_in t) s.wallets e)

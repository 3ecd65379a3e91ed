-- ===== src/WalletService/Outcomes.antt =====
-- When a debit succeeds, what a failed save leaves, and what two credits at once come to.
use fastmotion_delivery.Base.{
  ℕ, ◌+◌, ◌≡◌, ◌≢◌, ◌↔◌, inl, inr, refl, sym, ◌∙◌, ap, subst, true, false, not, ◌&&◌, Option, some,
  [], ◌∷◌, ◌++◌, arith, ◌==◌, Bool-cases, Option-cases, ==→eq,
}
use fastmotion_delivery.Base.Int.{ℤ, pos, pos_part, ◌+ℤ◌, ◌-ℤ◌, ◌≤ℤ◌, ltb_ℤ, int_laws}
use fastmotion_delivery.Base.Dict.{Dict, lookup, update, lookup-update_self, lookup-update_ne}
use fastmotion_delivery.Model.{
  Db, Wallet, TransactionType, TransactionCategory, BalanceType, HttpError, ok, is_ok, Handler,
  require, pure, ◌>>◌, bind-ok, bind-err,
}
use fastmotion_delivery.WalletService.Transfer.{
  balances_of, credited, charged, balance_for, with_balances, locked, create_transaction, or_unlock,
  credit_check, credit_commit, credit_wallet, debit_check, debit_commit, debit_wallet,
  transfer_record, counts_withdrawn,
}
use fastmotion_delivery.WalletService.Sound.{IsSound, credit-passes}

-- A debit, whose record is saved, succeeds exactly when the amount is above zero, the user has a
-- wallet that is active and not locked, and the balance that it is for covers the amount.
pub debit_iff :
    (user : ℕ) (amount : ℤ) (c : TransactionCategory) (kind : BalanceType) (r : Option ℕ) (s : Db)
    → (is_ok (debit_wallet true user amount c kind r s).0 ≡ true) ↔ (
        (w : Wallet) × (lookup user s.wallets ≡ some w)
        × (pos 1 ≤ℤ amount)
        × (w.is_active ≡ true)
        × (w.is_locked ≡ false)
        × (amount ≤ℤ balance_for kind w))
unfolding debit_wallet debit_check credit_check debit_commit or_unlock create_transaction
debit_iff user amount c kind r s = elim (Option-cases (lookup user s.wallets)) [
  | inl e ↦ (λ h. ground arith, λ p. cc (p.1, e))
  | inr (w, e) ↦ (
    λ h. (w, e, ground arith, ground arith, ground arith, ground arith),
    λ (v, f, p, a, l, b). ground arith,
  )
]

-- A wallet that is locked and unlocked.
relocked :
    (user v : ℕ) (ws : Dict Wallet) {w : Wallet}
    → lookup user ws ≡ some w
    → w.is_locked ≡ false
    → lookup v (update user (locked false) (update user (locked true) ws)) ≡ lookup v ws
relocked user v ws {w} e l = elim (Bool-cases (v == user)) [
  | inl same ↦
      let vu = ==→eq v user same in
      let once = lookup-update_self user (locked true) ws e in
      let twice = lookup-update_self user (locked false) (update user (locked true) ws) once in
      subst
        (λ k. lookup k (update user (locked false) (update user (locked true) ws)) ≡ lookup k ws)
        (sym vu) (twice ∙ ap (λ b. some (locked b w)) (sym l) ∙ sym e)
  | inr other ↦
      let ne : v ≢ user = ground arith in
      lookup-update_ne v user (locked false) (update user (locked true) ws) ne
      ∙ lookup-update_ne v user (locked true) ws ne
]

-- The wallet that a credit goes on with is not locked.
passed-unlocked :
    (user : ℕ) (amount : ℤ) (s : Db) {w : Wallet}
    → lookup user s.wallets ≡ some w
    → credit_check user amount s ≡ (ok w, s)
    → w.is_locked ≡ false
unfolding credit_check
passed-unlocked user amount s {w} f e = elim (Bool-cases w.is_locked) [
  | inr l ↦ l
  | inl l ↦ elim (Bool-cases (ltb_ℤ (pos 0) amount && w.is_active)) [
    | inl g ↦ ground arith
    | inr g ↦ ground arith
  ]
]

-- A credit whose record cannot be saved fails, and leaves every wallet, its lock included, and every
-- record as it was.
pub unsaved_undone :
    (user : ℕ) (amount : ℤ) (c : TransactionCategory) (kind : BalanceType) (r : Option ℕ) (s : Db)
    → let x = credit_wallet false user amount c kind r s in
      (is_ok x.0 ≡ false)
      × ((v : ℕ) → lookup v x.1.wallets ≡ lookup v s.wallets)
      × (x.1.transactions ≡ s.transactions)
unfolding credit_wallet credit_commit or_unlock create_transaction
unsaved_undone user amount c kind r s =
    let commit = credit_commit false user (pos_part amount) c kind r in
    elim (credit-passes user amount s) [
      | inl (e, refused) ↦
          subst
            (λ p.
              (is_ok p.0 ≡ false)
              × ((v : ℕ) → lookup v p.1.wallets ≡ lookup v s.wallets)
              × (p.1.transactions ≡ s.transactions))
            (sym (bind-err (credit_check user amount) commit s refused)) (refl, λ v. refl, refl)
      | inr (w, found, passed) ↦
          subst
            (λ p.
              (is_ok p.0 ≡ false)
              × ((v : ℕ) → lookup v p.1.wallets ≡ lookup v s.wallets)
              × (p.1.transactions ≡ s.transactions))
            (sym (bind-ok (credit_check user amount) commit s passed))
            (
              refl,
              λ v. relocked user v s.wallets found (passed-unlocked user amount s found passed),
              refl,
            )
    ]

add_sub : (b : ℤ) (n : ℕ) → (b +ℤ pos n) -ℤ pos n ≡ b
add_sub b n = omega int_laws

covers_more : (b : ℤ) (n : ℕ) → pos 0 ≤ℤ b → pos (n + 1) ≤ℤ b +ℤ pos (n + 1)
covers_more b n h = omega int_laws

-- A sound wallet that is not locked is left by its own balances.
settled_lem :
    (w : Wallet)
    → w.total_balance ≡ w.deposit_balance +ℤ w.withdrawable_balance
    → w.is_locked ≡ false
    → some (with_balances (balances_of w) w.total_withdrawn w) ≡ some w
settled_lem w h l = rw (sym h) (rw (sym l) refl)

module _ (user n : ℕ) (c : TransactionCategory) (kind : BalanceType) (r : Option ℕ) (w : Wallet)
    (s : Db) (found : lookup user s.wallets ≡ some w) (active : w.is_active ≡ true)
    (free : w.is_locked ≡ false) where
  check-passes : credit_check user (pos (n + 1)) s ≡ (ok w, s)
  unfolding credit_check
  check-passes = ground arith

  -- What a credit of more than zero leaves.
  credit-result :
      let x = credit_wallet true user (pos (n + 1)) c kind r s in
      (is_ok x.0 ≡ true)
      × (lookup user x.1.wallets
          ≡ some (with_balances (credited kind (n + 1) (balances_of w)) w.total_withdrawn w))
  unfolding credit_wallet credit_commit or_unlock create_transaction
  credit-result =
      subst
        (λ p.
          (is_ok p.0 ≡ true)
          × (lookup user p.1.wallets
              ≡ some (with_balances (credited kind (n + 1) (balances_of w)) w.total_withdrawn w)))
        (sym (
          bind-ok (credit_check user (pos (n + 1))) (credit_commit true user (n + 1) c kind r) s
            check-passes))
        (refl, lookup-update_self user _ _ (lookup-update_self user (locked true) s.wallets found))

  -- What a debit that is covered leaves.
  debit-result :
      pos (n + 1) ≤ℤ balance_for kind w
      → counts_withdrawn c ≡ false
      → let x = debit_wallet true user (pos (n + 1)) c kind r s in
        (is_ok x.0 ≡ true)
        × (lookup user x.1.wallets
            ≡ some (with_balances (charged kind (n + 1) (balances_of w)) w.total_withdrawn w))
  unfolding debit_wallet debit_check debit_commit or_unlock create_transaction
  debit-result enough plain =
      let covers : Wallet → Handler Wallet = λ v.
        require (not (ltb_ℤ (balance_for kind v) (pos (n + 1)))) HttpError.bad_request >> pure v in
      let checked : debit_check user (pos (n + 1)) kind s ≡ (ok w, s) =
        bind-ok (credit_check user (pos (n + 1))) covers s check-passes ∙ ground arith in
      subst
        (λ p.
          (is_ok p.0 ≡ true)
          × (lookup user p.1.wallets
              ≡ some (with_balances (charged kind (n + 1) (balances_of w)) w.total_withdrawn w)))
        (sym (
          bind-ok (debit_check user (pos (n + 1)) kind) (debit_commit true user (n + 1) c kind r) s
            checked))
        (
          refl,
          lookup-update_self user _ _ (lookup-update_self user (locked true) s.wallets found)
              ∙ ground arith,
        )

-- A credit of a single balance, and a debit of the same amount from it that is not a withdrawal,
-- both succeed and leave the wallet as it was, where it is active, not locked, sound, and the amount
-- is above zero.
pub credit_then_debit :
    (user n : ℕ) (c d : TransactionCategory) (kind : BalanceType) (q r : Option ℕ) (w : Wallet)
    (s : Db)
    → lookup user s.wallets ≡ some w
    → IsSound w
    → w.is_active ≡ true
    → w.is_locked ≡ false
    → counts_withdrawn d ≡ false
    → kind ≢ BalanceType.both
    → let x = credit_wallet true user (pos (n + 1)) c kind q s in
      let y = debit_wallet true user (pos (n + 1)) d kind r x.1 in
      (is_ok x.0 ≡ true) × (is_ok y.0 ≡ true) × (lookup user y.1.wallets ≡ some w)
credit_then_debit user n c d BalanceType.both q r w s e h a l p k = absurd (k refl)
credit_then_debit user n c d BalanceType.deposit q r w s e h a l p k =
    let b = BalanceType.deposit in
    let (first, v) = credit-result user n c b q w s e a l in
    let x = credit_wallet true user (pos (n + 1)) c b q s in
    let w' = with_balances (credited b (n + 1) (balances_of w)) w.total_withdrawn w in
    let (second, y) =
      debit-result user n d b r w' x.1 v a refl (covers_more w.deposit_balance n h.deposit) p in
    (
      first,
      second,
      y
          ∙ ap
              (λ z. some (
                with_balances (record { deposit = z; withdrawable = w.withdrawable_balance })
                  w.total_withdrawn w))
              (add_sub w.deposit_balance (n + 1))
          ∙ settled_lem w h.total l,
    )
credit_then_debit user n c d BalanceType.withdrawable q r w s e h a l p k =
    let b = BalanceType.withdrawable in
    let (first, v) = credit-result user n c b q w s e a l in
    let x = credit_wallet true user (pos (n + 1)) c b q s in
    let w' = with_balances (credited b (n + 1) (balances_of w)) w.total_withdrawn w in
    let (second, y) =
      debit-result user n d b r w' x.1 v a refl
        (covers_more w.withdrawable_balance n h.withdrawable) p in
    (
      first,
      second,
      y
          ∙ ap
              (λ z. some (
                with_balances (record { deposit = w.deposit_balance; withdrawable = z })
                  w.total_withdrawn w))
              (add_sub w.withdrawable_balance (n + 1))
          ∙ settled_lem w h.total l,
    )

-- Of two credits that both passed the checks before either was made, the second overwrites the first:
-- the wallet has only the second amount, and both are recorded as completed.
pub second_credit_stands :
    (user a b : ℕ) (c : TransactionCategory) (q r : Option ℕ) (w : Wallet) (s : Db)
    → lookup user s.wallets ≡ some w
    → let t = (credit_commit true user a c BalanceType.deposit q w s).1 in
      let u = (credit_commit true user b c BalanceType.deposit r w t).1 in
      let after = credited BalanceType.deposit b (balances_of w) in
      (lookup user u.wallets ≡ some (with_balances after w.total_withdrawn w))
      × (u.transactions
          ≡ (s.transactions
              ++ (transfer_record user TransactionType.credit c BalanceType.deposit a q w
                    (credited BalanceType.deposit a (balances_of w))
                  ∷ []))
            ++ (transfer_record user TransactionType.credit c BalanceType.deposit b r w after ∷ []))
unfolding credit_commit or_unlock create_transaction
second_credit_stands user a b c q r w s e =
    let f = locked true in
    let l1 = lookup-update_self user f s.wallets e in
    let g = λ (v : Wallet).
      with_balances (credited BalanceType.deposit a (balances_of w)) v.total_withdrawn v in
    let l2 = lookup-update_self user g (update user f s.wallets) l1 in
    let l3 = lookup-update_self user f (update user g (update user f s.wallets)) l2 in
    (lookup-update_self user _ _ l3, refl)

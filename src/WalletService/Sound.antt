-- ===== src/WalletService/Sound.antt =====
-- The balances of a wallet.
use fastmotion_delivery.Base.{
  ℕ, ◌≡◌, ◌⊎◌, inl, inr, refl, sym, ◌∙◌, ap, subst, Bool, true, false, not, Option, some, List, [],
  ◌∷◌, ◌++◌, arith, Bool-cases, Option-cases,
}
use fastmotion_delivery.Base.Int.{
  ℤ, pos, pos_part, neg_part, ◌+ℤ◌, ◌-ℤ◌, ◌≤ℤ◌, ltb_ℤ, leb_ℤ, int_laws,
}
use fastmotion_delivery.Base.Dict.{Dict, lookup, update, Always, Always-update, Always-append}
use fastmotion_delivery.Model.{
  Handler, require, pure, ◌>>◌, bind-ok, bind-err, Db, HttpError, ok, err, Wallet,
  TransactionCategory, BalanceType,
}
use fastmotion_delivery.Payment.{new_wallet}
use fastmotion_delivery.WalletService.Transfer.{
  Balances, balances_of, credited, charged, balance_for, with_balances, locked, create_wallet,
  disable_and_lock_wallet, create_transaction, or_unlock, credit_check, credit_commit,
  credit_wallet, debit_check, debit_commit, debit_wallet,
}
use fastmotion_delivery.WalletService.Requests.{
  WalletRequest, process_deposit, process_withdrawal, ask_wallet, ask_wallets,
}

-- Neither balance is below zero, and the total is their sum.
pub record IsSound (w : Wallet) : Type 0 where
  pub deposit : pos 0 ≤ℤ w.deposit_balance
  pub withdrawable : pos 0 ≤ℤ w.withdrawable_balance
  pub total : w.total_balance ≡ w.deposit_balance +ℤ w.withdrawable_balance

abbrev pub AllSound : Db → Type 0
AllSound s = Always (λ u w. IsSound w) s.wallets

settled-IsSound :
    (b : Balances) (n : ℤ) (w : Wallet)
    → (pos 0 ≤ℤ b.deposit) × (pos 0 ≤ℤ b.withdrawable)
    → IsSound (with_balances b n w)
settled-IsSound b n w p = record { deposit = p.0; withdrawable = p.1; total = refl }

lock-AllSound :
    (user : ℕ) (b : Bool) (ws : Dict Wallet)
    → Always (λ u w. IsSound w) ws
    → Always (λ u w. IsSound w) (update user (locked b) ws)
lock-AllSound user b ws =
    Always-update (λ u w. IsSound w) user (locked b) ws
      (λ w e h. record { deposit = h.deposit; withdrawable = h.withdrawable; total = h.total })

-- The checks refuse, or hand on the wallet that they read; they write nothing.
pub credit-passes :
    (user : ℕ) (amount : ℤ) (s : Db)
    → ((e : HttpError) × (credit_check user amount s ≡ (err e, s)))
      ⊎ ((w : Wallet) × (lookup user s.wallets ≡ some w) × (credit_check user amount s ≡ (ok w, s)))
unfolding credit_check
credit-passes user amount s = elim (Bool-cases (ltb_ℤ (pos 0) amount)) [
  | inr g ↦ inl (HttpError.bad_request, rw g refl)
  | inl g ↦ elim (Option-cases (lookup user s.wallets)) [
    | inl e ↦ inl (HttpError.not_found, ground arith)
    | inr (w, e) ↦ elim (Bool-cases w.is_active) [
      | inr a ↦ inl (HttpError.bad_request, ground arith)
      | inl a ↦ elim (Bool-cases w.is_locked) [
        | inl l ↦ inl (HttpError.conflict, ground arith)
        | inr l ↦ inr (w, e, ground arith)
      ]
    ]
  ]
]

-- Two balances that are not below zero.
abbrev Positive : Balances → Type 0
Positive b = (pos 0 ≤ℤ b.deposit) × (pos 0 ≤ℤ b.withdrawable)

credited-Positive :
    (kind : BalanceType) (amount : ℕ) (w : Wallet)
    → IsSound w
    → Positive (credited kind amount (balances_of w))
credited-Positive BalanceType.deposit amount w h = omega int_laws
credited-Positive BalanceType.withdrawable amount w h = omega int_laws
credited-Positive BalanceType.both amount w h = omega int_laws

deposit_left :
    (amount : ℕ) (w : Wallet)
    → IsSound w
    → pos amount ≤ℤ w.deposit_balance
    → (pos 0 ≤ℤ w.deposit_balance -ℤ pos amount) × (pos 0 ≤ℤ w.withdrawable_balance)
deposit_left amount w h le = omega int_laws

-- What a debit of both balances leaves of the second.
both_left :
    (amount : ℕ) (d w total : ℤ)
    → pos_part total ≡ pos_part (d +ℤ w)
    → neg_part total ≡ neg_part (d +ℤ w)
    → pos amount ≤ℤ total
    → pos 0 ≤ℤ w -ℤ (pos amount -ℤ d)
both_left amount d w total p n e = omega int_laws

charged-Positive :
    (kind : BalanceType) (amount : ℕ) (w : Wallet)
    → IsSound w
    → pos amount ≤ℤ balance_for kind w
    → Positive (charged kind amount (balances_of w))
charged-Positive BalanceType.deposit amount w h e = omega int_laws
charged-Positive BalanceType.withdrawable amount w h e = omega int_laws
charged-Positive BalanceType.both amount w h e =
    elim (Bool-cases (leb_ℤ (pos amount) w.deposit_balance)) [
      | inl enough ↦
          let le : pos amount ≤ℤ w.deposit_balance = ground arith in
          rw enough (deposit_left amount w h le)
      | inr short ↦ rw short (
        omega arith,
        both_left amount w.deposit_balance w.withdrawable_balance w.total_balance
            (ap pos_part h.total) (ap neg_part h.total) e,
      )
    ]

commit-AllSound :
    (saves : Bool) (user amount : ℕ) (c : TransactionCategory) (kind : BalanceType) (r : Option ℕ)
    (w : Wallet) (s : Db)
    → Positive (credited kind amount (balances_of w))
    → AllSound s
    → AllSound (credit_commit saves user amount c kind r w s).1
unfolding credit_commit or_unlock create_transaction
commit-AllSound true user amount c kind r w s b h =
    Always-update (λ u v. IsSound v) user _ _ (λ v e p. settled-IsSound _ v.total_withdrawn v b)
      (lock-AllSound user true s.wallets h)
commit-AllSound false user amount c kind r w s b h =
    lock-AllSound user false _ (lock-AllSound user true s.wallets h)

charge-AllSound :
    (saves : Bool) (user amount : ℕ) (c : TransactionCategory) (kind : BalanceType) (r : Option ℕ)
    (w : Wallet) (s : Db)
    → Positive (charged kind amount (balances_of w))
    → AllSound s
    → AllSound (debit_commit saves user amount c kind r w s).1
unfolding debit_commit or_unlock create_transaction
charge-AllSound true user amount c kind r w s b h =
    Always-update (λ u v. IsSound v) user _ _ (λ v e p. settled-IsSound _ _ v b)
      (lock-AllSound user true s.wallets h)
charge-AllSound false user amount c kind r w s b h =
    lock-AllSound user false _ (lock-AllSound user true s.wallets h)

credit-AllSound :
    (saves : Bool) (user : ℕ) (amount : ℤ) (c : TransactionCategory) (kind : BalanceType)
    (r : Option ℕ) (s : Db)
    → AllSound s
    → AllSound (credit_wallet saves user amount c kind r s).1
unfolding credit_wallet
credit-AllSound saves user amount c kind r s h =
    let commit = credit_commit saves user (pos_part amount) c kind r in
    elim (credit-passes user amount s) [
      | inl (e, refused) ↦
          subst (λ p. AllSound p.1) (sym (bind-err (credit_check user amount) commit s refused)) h
      | inr (w, found, passed) ↦
          subst (λ p. AllSound p.1) (sym (bind-ok (credit_check user amount) commit s passed))
            (commit-AllSound saves user (pos_part amount) c kind r w s
              (credited-Positive kind (pos_part amount) w (h user w found)) h)
    ]

-- A credit or debit that passes is of more than zero.
credit-positive :
    (user : ℕ) (amount : ℤ) (s : Db) {w : Wallet}
    → credit_check user amount s ≡ (ok w, s)
    → ltb_ℤ (pos 0) amount ≡ true
unfolding credit_check
credit-positive user amount s e = elim (Bool-cases (ltb_ℤ (pos 0) amount)) [
  | inl g ↦ g
  | inr g ↦ cc (ap (λ p. p.0) e, g)
]

covered :
    (amount b : ℤ)
    → ltb_ℤ (pos 0) amount ≡ true
    → ltb_ℤ b amount ≡ false
    → pos (pos_part amount) ≤ℤ b
covered amount b p e = ground arith

new_wallet-IsSound : IsSound new_wallet
unfolding ◌+ℤ◌
new_wallet-IsSound = record { deposit = omega arith; withdrawable = omega arith; total = refl }

-- A debit passes when the balance that it is for covers it.
pub debit-passes :
    (user : ℕ) (amount : ℤ) (kind : BalanceType) (s : Db)
    → ((e : HttpError) × (debit_check user amount kind s ≡ (err e, s)))
      ⊎ ((w : Wallet) × (lookup user s.wallets ≡ some w)
          × (pos (pos_part amount) ≤ℤ balance_for kind w)
          × (debit_check user amount kind s ≡ (ok w, s)))
unfolding debit_check
debit-passes user amount kind s =
    let covers : Wallet → Handler Wallet =
      λ w. require (not (ltb_ℤ (balance_for kind w) amount)) HttpError.bad_request >> pure w in
    elim (credit-passes user amount s) [
      | inl (e, refused) ↦ inl (e, bind-err (credit_check user amount) covers s refused)
      | inr (w, found, passed) ↦
          let then_checked = bind-ok (credit_check user amount) covers s passed in
          elim (Bool-cases (ltb_ℤ (balance_for kind w) amount)) [
            | inl short ↦ inl (HttpError.bad_request, then_checked ∙ rw short refl)
            | inr enough ↦ inr (
              w,
              found,
              covered amount (balance_for kind w) (credit-positive user amount s passed) enough,
              then_checked ∙ rw enough refl,
            )
          ]
    ]

debit-AllSound :
    (saves : Bool) (user : ℕ) (amount : ℤ) (c : TransactionCategory) (kind : BalanceType)
    (r : Option ℕ) (s : Db)
    → AllSound s
    → AllSound (debit_wallet saves user amount c kind r s).1
unfolding debit_wallet
debit-AllSound saves user amount c kind r s h =
    let commit = debit_commit saves user (pos_part amount) c kind r in
    elim (debit-passes user amount kind s) [
      | inl (e, refused) ↦
          subst (λ p. AllSound p.1) (sym (bind-err (debit_check user amount kind) commit s refused))
            h
      | inr (w, found, enough, passed) ↦
          subst (λ p. AllSound p.1) (sym (bind-ok (debit_check user amount kind) commit s passed))
            (charge-AllSound saves user (pos_part amount) c kind r w s
              (charged-Positive kind (pos_part amount) w (h user w found) enough) h)
    ]

create-cases :
    (user : ℕ) (s : Db)
    → ((create_wallet user s).1.wallets ≡ s.wallets)
      ⊎ ((create_wallet user s).1.wallets ≡ s.wallets ++ ((user, new_wallet) ∷ []))
unfolding create_wallet
create-cases user s = elim (Option-cases (lookup user s.wallets)) [
  | inl e ↦ inr (ground arith)
  | inr (w, e) ↦ inl (ground arith)
]

withdraw-cases :
    (saves : Bool) (user : ℕ) (amount : ℤ) (r : Option ℕ) (s : Db)
    → ((process_withdrawal saves user amount r s).1 ≡ s)
      ⊎ ((process_withdrawal saves user amount r s).1
          ≡ (debit_wallet saves user amount TransactionCategory.withdrawal BalanceType.withdrawable
              r s).1)
unfolding process_withdrawal
withdraw-cases saves user amount r s = elim (Option-cases (lookup user s.wallets)) [
  | inl e ↦ inl (ground arith)
  | inr (w, e) ↦ elim (Bool-cases (ltb_ℤ w.withdrawable_balance amount)) [
    | inl g ↦ inl (ground arith)
    | inr g ↦ inr (ground arith)
  ]
]

ask-AllSound : (q : WalletRequest) (s : Db) → AllSound s → AllSound (ask_wallet q s).1
unfolding ask_wallet disable_and_lock_wallet process_deposit
ask-AllSound (WalletRequest.create user) s h = elim (create-cases user s) [
  | inl e ↦ subst (Always (λ u w. IsSound w)) (sym e) h
  | inr e ↦
      subst (Always (λ u w. IsSound w)) (sym e)
        (Always-append (λ u w. IsSound w) user new_wallet s.wallets h new_wallet-IsSound)
]
ask-AllSound (WalletRequest.disable user) s h =
    Always-update (λ u w. IsSound w) user _ s.wallets
      (λ w e p. record { deposit = p.deposit; withdrawable = p.withdrawable; total = p.total }) h
ask-AllSound (WalletRequest.deposit saves user amount r) s h =
    credit-AllSound saves user amount TransactionCategory.deposit BalanceType.deposit r s h
ask-AllSound (WalletRequest.withdraw saves user amount r) s h =
    elim (withdraw-cases saves user amount r s) [
      | inl e ↦ subst AllSound (sym e) h
      | inr e ↦ subst AllSound (sym e) (
          debit-AllSound saves user amount TransactionCategory.withdrawal BalanceType.withdrawable r
            s h)
    ]
ask-AllSound (WalletRequest.refund saves user amount kind r) s h =
    credit-AllSound saves user amount TransactionCategory.refund kind r s h
ask-AllSound (WalletRequest.admin_credit saves user amount kind r) s h =
    credit-AllSound saves user amount TransactionCategory.bakery_order_deposit kind r s h
ask-AllSound (WalletRequest.admin_debit saves user amount kind r) s h =
    debit-AllSound saves user amount TransactionCategory.adjustment kind r s h

-- Whatever wallets are asked for, in whatever order, whether the records of it are saved or not: no
-- balance of a wallet is below zero and its total is the sum of the two, if it was so at the start.
pub ask_wallets-AllSound :
    (qs : List WalletRequest) (s : Db) → AllSound s → AllSound (ask_wallets qs s)
unfolding ask_wallets
ask_wallets-AllSound [] s h = h
ask_wallets-AllSound (q ∷ qs) s h = ask_wallets-AllSound qs (ask_wallet q s).1 (ask-AllSound q s h)

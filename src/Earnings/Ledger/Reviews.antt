-- ===== src/Earnings/Ledger/Reviews.antt =====
-- `approveWithdrawal` and `rejectWithdrawal` and the ledger.
use fastmotion_delivery.Base.{
  ℕ, ◌+◌, ◌≡◌, ◌≢◌, refl, sym, ap, subst, ◌∙◌, ◌⊎◌, inl, inr, true, false, Option, some, All, Bool,
  [], ◌∷◌, arith, ◌==◌,
}
use fastmotion_delivery.Base.Int.{pos, ◌+ℤ◌}
use fastmotion_delivery.Base.Dict.{Dict, lookup, update}
use fastmotion_delivery.Model.{Db, Earning, Withdrawal, WithdrawalStatus}
use fastmotion_delivery.Earnings.Withdraw.{available_balance, is_pending}
use fastmotion_delivery.Earnings.Review.{
  update_where, held_for, settled, released, processed, restored, approve_withdrawal,
  reject_withdrawal,
}
use fastmotion_delivery.Earnings.Ledger.Sums.{
  available-released, available-settled, held-released, held-settled,
}
use fastmotion_delivery.Earnings.Ledger.Hold.{IsDistinct, counted}
use fastmotion_delivery.Earnings.Ledger.Balance.{
  IsBalanced, wallets-update, IsReserved-update, references-update, plus_pos,
}

update_where-keys :
    (Q : ℕ → Type 0) (p : Earning → Bool) (f : Earning → Earning) (es : Dict Earning)
    → All (λ x. Q x.0) es
    → All (λ x. Q x.0) (update_where p f es)
unfolding update_where
update_where-keys Q p f [] a = tt
update_where-keys Q p f (x ∷ es) a = (a.0, update_where-keys Q p f es a.1)

update_where-IsDistinct :
    (p : Earning → Bool) (f : Earning → Earning) (es : Dict Earning)
    → IsDistinct es
    → IsDistinct (update_where p f es)
unfolding update_where
update_where-IsDistinct p f [] d = tt
update_where-IsDistinct p f ((i, e) ∷ es) d =
    (update_where-keys (λ k. (k == i) ≡ false) p f es d.0, update_where-IsDistinct p f es d.1)

approve-writes :
    (id admin : ℕ) (remark : Option ℕ) (now : ℕ) (s : Db)
    → let t = (approve_withdrawal id admin remark now s).1 in
      (t ≡ s)
      ⊎ ((w : Withdrawal) × (lookup id s.withdrawals ≡ some w)
          × (is_pending w.status ≡ true)
          × (t ≡ record s {
            earnings = update_where (held_for w.reference) (settled now) s.earnings;
            withdrawals =
                update id (processed WithdrawalStatus.approved admin now remark) s.withdrawals;
          }))
unfolding approve_withdrawal
approve-writes id admin remark now s = ground arith

-- An approval keeps the books balanced: what was held for the request is withdrawn, and no wallet
-- changes.
pub approve-IsBalanced :
    (id admin : ℕ) (remark : Option ℕ) (now : ℕ) (s : Db)
    → IsBalanced s
    → IsBalanced (approve_withdrawal id admin remark now s).1
approve-IsBalanced id admin remark now s b = go (approve-writes id admin remark now s)
  where
    go :
        ((approve_withdrawal id admin remark now s).1 ≡ s)
          ⊎ ((w : Withdrawal) × (lookup id s.withdrawals ≡ some w)
              × (is_pending w.status ≡ true)
              × ((approve_withdrawal id admin remark now s).1 ≡ record s {
                earnings = update_where (held_for w.reference) (settled now) s.earnings;
                withdrawals =
                    update id (processed WithdrawalStatus.approved admin now remark) s.withdrawals;
              }))
        → IsBalanced (approve_withdrawal id admin remark now s).1
    go (inl same) = subst IsBalanced (sym same) b
    go (inr (w, found, p, t)) = subst IsBalanced (sym t) (record {
      wallets =
          λ r v e. b.wallets r v e ∙ ap pos (sym (available-settled r w.reference now s.earnings));
      reserved =
          IsReserved-update id (processed WithdrawalStatus.approved admin now remark) s.earnings
            (update_where (held_for w.reference) (settled now) s.earnings) s.withdrawals w found
            b.references (λ v. refl)
            (λ other r ne. held-settled w.reference other r now s.earnings ne) b.reserved;
      distinct = update_where-IsDistinct (held_for w.reference) (settled now) s.earnings b.distinct;
      references =
          references-update id (processed WithdrawalStatus.approved admin now remark) s.withdrawals
            (λ v. refl) b.references;
    })

reject-writes :
    (id admin : ℕ) (remark : Option ℕ) (now : ℕ) (s : Db)
    → let t = (reject_withdrawal id admin remark now s).1 in
      (t ≡ s)
      ⊎ ((w : Withdrawal) × (lookup id s.withdrawals ≡ some w)
          × (is_pending w.status ≡ true)
          × (t ≡ record s {
            earnings = update_where (held_for w.reference) released s.earnings;
            riders = update w.rider (restored w.amount) s.riders;
            withdrawals =
                update id (processed WithdrawalStatus.rejected admin now remark) s.withdrawals;
          }))
unfolding reject_withdrawal
reject-writes id admin remark now s = ground arith

-- What is released goes back to the wallet of the rider who asked, and to no other.
released-available :
    (s : Db) (id r : ℕ) (w : Withdrawal)
    → IsBalanced s
    → lookup id s.withdrawals ≡ some w
    → is_pending w.status ≡ true
    → available_balance r (update_where (held_for w.reference) released s.earnings)
      ≡ available_balance r s.earnings + counted (w.rider == r) w.amount
released-available s id r w b found p =
    available-released r w.reference s.earnings
    ∙ ap (λ n. available_balance r s.earnings + n) (b.reserved id w found p r)

released-own :
    (s : Db) (id : ℕ) (w : Withdrawal)
    → IsBalanced s
    → lookup id s.withdrawals ≡ some w
    → is_pending w.status ≡ true
    → available_balance w.rider (update_where (held_for w.reference) released s.earnings)
      ≡ available_balance w.rider s.earnings + w.amount
released-own s id w b found p = ground (arith, released-available s id w.rider w b found p)

released-others :
    (s : Db) (id r : ℕ) (w : Withdrawal)
    → IsBalanced s
    → lookup id s.withdrawals ≡ some w
    → is_pending w.status ≡ true
    → r ≢ w.rider
    → available_balance r (update_where (held_for w.reference) released s.earnings)
      ≡ available_balance r s.earnings
released-others s id r w b found p ne = ground (arith, released-available s id r w b found p)

-- A rejection keeps the books balanced: what was held for the request is available again, and the
-- rider's wallet has the amount back.
pub reject-IsBalanced :
    (id admin : ℕ) (remark : Option ℕ) (now : ℕ) (s : Db)
    → IsBalanced s
    → IsBalanced (reject_withdrawal id admin remark now s).1
reject-IsBalanced id admin remark now s b = go (reject-writes id admin remark now s)
  where
    go :
        ((reject_withdrawal id admin remark now s).1 ≡ s)
          ⊎ ((w : Withdrawal) × (lookup id s.withdrawals ≡ some w)
              × (is_pending w.status ≡ true)
              × ((reject_withdrawal id admin remark now s).1 ≡ record s {
                earnings = update_where (held_for w.reference) released s.earnings;
                riders = update w.rider (restored w.amount) s.riders;
                withdrawals =
                    update id (processed WithdrawalStatus.rejected admin now remark) s.withdrawals;
              }))
        → IsBalanced (reject_withdrawal id admin remark now s).1
    go (inl same) = subst IsBalanced (sym same) b
    go (inr (w, found, p, t)) =
        let back : Dict Earning = update_where (held_for w.reference) released s.earnings in
        subst IsBalanced (sym t) (record {
          wallets =
              wallets-update w.rider (restored w.amount) s.earnings back s.riders
                (λ v e.
                  ap (λ z. z +ℤ pos w.amount) e
                  ∙ plus_pos (available_balance w.rider s.earnings) w.amount
                  ∙ ap pos (sym (released-own s id w b found p)))
                (λ r ne. released-others s id r w b found p ne) b.wallets;
          reserved =
              IsReserved-update id (processed WithdrawalStatus.rejected admin now remark) s.earnings
                back s.withdrawals w found b.references (λ v. refl)
                (λ other r ne. held-released w.reference other r s.earnings ne) b.reserved;
          distinct = update_where-IsDistinct (held_for w.reference) released s.earnings b.distinct;
          references =
              references-update id (processed WithdrawalStatus.rejected admin now remark)
                s.withdrawals (λ v. refl) b.references;
        })

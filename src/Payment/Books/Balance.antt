-- ===== src/Payment/Books/Balance.antt =====
-- The deposit balance of a wallet and the transactions of its user.
use fastmotion_delivery.Base.{
  ℕ, ◌+◌, ◌≡◌, ◌≢◌, sym, ap, subst, ◌∙◌, inl, inr, Bool, true, false, none, some, List, [], ◌∷◌,
  ◌++◌, arith, ◌==◌, ◌&&◌, if◌then◌else◌, Option-cases, Bool-cases, ==→eq,
}
use fastmotion_delivery.Base.Int.{pos, ◌+ℤ◌, ◌-ℤ◌}
use fastmotion_delivery.Base.Dict.{
  Dict, lookup, update, Always, lookup-update_inv, lookup-append_inv, lookup-update_self,
  lookup-update_ne, lookup-append_old,
}
use fastmotion_delivery.Model.{Wallet, WalletTransaction}
use fastmotion_delivery.Payment.Wallets.{
  sum_type, compute_wallet_balance, is_debit, is_completed, new_wallet,
}

-- Every wallet has the balance of its user's transactions; a user without a wallet has none.
pub record IsKept (ws : Dict Wallet) (ts : List WalletTransaction) : Type 0 where
  pub balances : Always (λ u w. w.deposit_balance ≡ compute_wallet_balance u ts) ws
  pub absent : (u : ℕ) → lookup u ws ≡ none → compute_wallet_balance u ts ≡ pos 0

-- What one transaction adds to the credits or the debits of a user.
abbrev adds : Bool → ℕ → WalletTransaction → ℕ
adds debits user t =
    if t.user == user && is_completed t.status
    then if is_debit t.type then if debits then t.amount else 0 else if debits then 0 else t.amount
    else 0

sum_type-append :
    (debits : Bool) (user : ℕ) (ts : List WalletTransaction) (t : WalletTransaction)
    → sum_type debits user (ts ++ (t ∷ [])) ≡ sum_type debits user ts + adds debits user t
unfolding sum_type
sum_type-append debits user [] t = omega arith
sum_type-append debits user (x ∷ ts) t = omega (arith, sum_type-append debits user ts t)

sub_more : (a b c d n : ℕ) → c ≡ 0 → d ≡ n → pos (a + c) -ℤ pos (b + d) ≡ (pos a -ℤ pos b) -ℤ pos n
unfolding ◌-ℤ◌
sub_more a b c d n hc hd = ground arith

add_more : (a b c d n : ℕ) → c ≡ n → d ≡ 0 → pos (a + c) -ℤ pos (b + d) ≡ (pos a -ℤ pos b) +ℤ pos n
unfolding ◌-ℤ◌ ◌+ℤ◌
add_more a b c d n hc hd = ground arith

same_sub : (a b c d : ℕ) → c ≡ 0 → d ≡ 0 → pos (a + c) -ℤ pos (b + d) ≡ pos a -ℤ pos b
unfolding ◌-ℤ◌
same_sub a b c d hc hd = ground arith

module _ (ts : List WalletTransaction) (t : WalletTransaction) where
  split :
      (u : ℕ)
      → compute_wallet_balance u (ts ++ (t ∷ []))
        ≡ pos (sum_type false u ts + adds false u t) -ℤ pos (sum_type true u ts + adds true u t)
  unfolding compute_wallet_balance
  split u = cc (sum_type-append true u ts t, sum_type-append false u ts t)

  pub balance-debit :
      is_debit t.type ≡ true
      → is_completed t.status ≡ true
      → compute_wallet_balance t.user (ts ++ (t ∷ []))
        ≡ compute_wallet_balance t.user ts -ℤ pos t.amount
  unfolding compute_wallet_balance
  balance-debit d c =
      subst (λ n. n ≡ compute_wallet_balance t.user ts -ℤ pos t.amount) (sym (split t.user))
        (sub_more (sum_type false t.user ts) (sum_type true t.user ts) (adds false t.user t)
          (adds true t.user t) t.amount (ground arith) (ground arith))

  pub balance-credit :
      is_debit t.type ≡ false
      → is_completed t.status ≡ true
      → compute_wallet_balance t.user (ts ++ (t ∷ []))
        ≡ compute_wallet_balance t.user ts +ℤ pos t.amount
  unfolding compute_wallet_balance
  balance-credit d c =
      subst (λ n. n ≡ compute_wallet_balance t.user ts +ℤ pos t.amount) (sym (split t.user))
        (add_more (sum_type false t.user ts) (sum_type true t.user ts) (adds false t.user t)
          (adds true t.user t) t.amount (ground arith) (ground arith))

  pub balance-other :
      (u : ℕ) → u ≢ t.user → compute_wallet_balance u (ts ++ (t ∷ [])) ≡ compute_wallet_balance u ts
  unfolding compute_wallet_balance
  balance-other u ne = cc (
    split u,
    same_sub (sum_type false u ts) (sum_type true u ts) (adds false u t) (adds true u t)
        (ground arith) (ground arith),
  )

pub IsKept-create :
    (u : ℕ) (ws : Dict Wallet) (ts : List WalletTransaction)
    → lookup u ws ≡ none
    → IsKept ws ts
    → IsKept (ws ++ ((u, new_wallet) ∷ [])) ts
IsKept-create u ws ts new k = record {
  balances = λ i w e. elim (lookup-append_inv i u ws new_wallet w e) [
    | inl old ↦ k.balances i w old
    | inr (iu, wn) ↦
        ap (λ x. x.deposit_balance) wn
        ∙ sym (k.absent i (subst (λ j. lookup j ws ≡ none) (sym iu) new))
  ];
  absent = λ i e. elim (Option-cases (lookup i ws)) [
    | inl n ↦ k.absent i n
    | inr (w, n) ↦ cc (lookup-append_old i u ws new_wallet n, e)
  ];
}

-- A transaction of a user who has a wallet, and the change of the wallet that goes with it.
pub IsKept-record :
    (f : Wallet → Wallet) (t : WalletTransaction) (ws : Dict Wallet) (ts : List WalletTransaction)
    → {w₀ : Wallet} → lookup t.user ws ≡ some w₀
    → ((w : Wallet)
        → w.deposit_balance ≡ compute_wallet_balance t.user ts
        → (f w).deposit_balance ≡ compute_wallet_balance t.user (ts ++ (t ∷ [])))
    → IsKept ws ts
    → IsKept (update t.user f ws) (ts ++ (t ∷ []))
IsKept-record f t ws ts there follows k = record {
  balances = λ i w e.
      let (v, old, how) = lookup-update_inv i t.user f ws e in
      elim how [
        | inl (same, wf) ↦
            ap (λ x. x.deposit_balance) wf
            ∙ follows v (k.balances i v old ∙ ap (λ j. compute_wallet_balance j ts) same)
            ∙ ap (λ j. compute_wallet_balance j (ts ++ (t ∷ []))) (sym same)
        | inr (other, wv) ↦
            ap (λ x. x.deposit_balance) wv ∙ k.balances i v old ∙ sym (balance-other ts t i other)
      ];
  absent = λ i e. elim (Bool-cases (i == t.user)) [
    | inl same ↦ cc (
      subst (λ j. lookup j (update t.user f ws) ≡ none) (==→eq i t.user same) e,
      lookup-update_self t.user f ws there,
    )
    | inr other ↦
        let ne : i ≢ t.user = ground arith in
        balance-other ts t i ne ∙ k.absent i (sym (lookup-update_ne i t.user f ws ne) ∙ e)
  ];
}

-- ===== src/Earnings/Ledger/Balance.antt =====
-- What it means that the books of the riders balance: the wallets, the requests and the earnings of
-- apps/delivery-api/src/earnings/earnings.service.ts.
use fastmotion_delivery.Base.{
  ℕ, ◌+◌, ◌≡◌, ◌≢◌, sym, ap, subst, ◌∙◌, ◌⊎◌, inl, inr, true, false, some, ◌==◌,
}
use fastmotion_delivery.Base.Int.{pos, ◌+ℤ◌, ◌-ℤ◌, int_laws}
use fastmotion_delivery.Base.Dict.{Dict, lookup, update, Always, lookup-update_inv}
use fastmotion_delivery.Model.{Db, Rider, Earning, Withdrawal}
use fastmotion_delivery.Earnings.Withdraw.{sum_where, available_balance, is_pending}
use fastmotion_delivery.Earnings.Ledger.Sums.{held_by}
use fastmotion_delivery.Earnings.Ledger.Hold.{IsDistinct, counted}

-- What is held for a pending request is its amount, all of it from the rider's own earnings.
abbrev pub IsReserved : Dict Earning → Withdrawal → Type 0
IsReserved es w =
    is_pending w.status ≡ true
    → (r : ℕ) → sum_where (held_by w.reference r) es ≡ counted (w.rider == r) w.amount

-- No two requests share a reference.
abbrev pub HasOwnReferences : Dict Withdrawal → Type 0
HasOwnReferences ws =
    (i j : ℕ) (v w : Withdrawal)
    → lookup i ws ≡ some v
    → lookup j ws ≡ some w
    → v.reference ≡ w.reference
    → i ≡ j

pub record IsBalanced (s : Db) : Type 0 where
  pub wallets : Always (λ r w. w.wallet_balance ≡ pos (available_balance r s.earnings)) s.riders
  pub reserved : Always (λ _ w. IsReserved s.earnings w) s.withdrawals
  pub distinct : IsDistinct s.earnings
  pub references : HasOwnReferences s.withdrawals

-- Wallets follow their riders' available sums: the one of `k` by `f`, the others not at all.
pub wallets-update :
    (k : ℕ) (f : Rider → Rider) (es es' : Dict Earning) (riders : Dict Rider)
    → ((w : Rider)
        → w.wallet_balance ≡ pos (available_balance k es)
        → (f w).wallet_balance ≡ pos (available_balance k es'))
    → ((r : ℕ) → r ≢ k → available_balance r es' ≡ available_balance r es)
    → Always (λ r w. w.wallet_balance ≡ pos (available_balance r es)) riders
    → Always (λ r w. w.wallet_balance ≡ pos (available_balance r es')) (update k f riders)
wallets-update k f es es' riders self others h r w' e = go (lookup-update_inv r k f riders e)
  where
    go :
        (v : Rider) × (lookup r riders ≡ some v) × ((r ≡ k) × (w' ≡ f v) ⊎ (r ≢ k) × (w' ≡ v))
        → w'.wallet_balance ≡ pos (available_balance r es')
    go (v, found, inl (rk, wf)) =
        subst (λ i. w'.wallet_balance ≡ pos (available_balance i es')) (sym rk)
          (ap (λ x. x.wallet_balance) wf
            ∙ self v
                (subst (λ i. v.wallet_balance ≡ pos (available_balance i es)) rk (h r v found)))
    go (v, found, inr (ne, wv)) =
        ap (λ x. x.wallet_balance) wv ∙ h r v found ∙ ap pos (sym (others r ne))

-- A review ends the request `k`; the reservations of the others stand.
pub IsReserved-update :
    (k : ℕ) (f : Withdrawal → Withdrawal) (es es' : Dict Earning) (ws : Dict Withdrawal)
    (w : Withdrawal)
    → lookup k ws ≡ some w
    → HasOwnReferences ws
    → ((v : Withdrawal) → is_pending (f v).status ≡ false)
    → ((other r : ℕ)
        → other ≢ w.reference
        → sum_where (held_by other r) es' ≡ sum_where (held_by other r) es)
    → Always (λ _ v. IsReserved es v) ws
    → Always (λ _ v. IsReserved es' v) (update k f ws)
IsReserved-update k f es es' ws w here own ended keep h i v' e = go (lookup-update_inv i k f ws e)
  where
    go :
        (v : Withdrawal) × (lookup i ws ≡ some v) × ((i ≡ k) × (v' ≡ f v) ⊎ (i ≢ k) × (v' ≡ v))
        → IsReserved es' v'
    go (v, found, inl (ik, vf)) = λ p. cc (ended v, subst (λ x. is_pending x.status ≡ true) vf p)
    go (v, found, inr (ne, vv)) =
        subst (IsReserved es') (sym vv)
          λ p r. keep v.reference r (λ same. ne (own i k v w found here same)) ∙ h i v found p r

pub references-update :
    (k : ℕ) (f : Withdrawal → Withdrawal) (ws : Dict Withdrawal)
    → ((v : Withdrawal) → (f v).reference ≡ v.reference)
    → HasOwnReferences ws
    → HasOwnReferences (update k f ws)
references-update k f ws same own i j v w ei ej e =
    let (v0, fv, cv) = lookup-update_inv i k f ws ei in
    let (w0, fw, cw) = lookup-update_inv j k f ws ej in
    own i j v0 w0 fv fw (sym (old v v0 cv) ∙ e ∙ old w w0 cw)
  where
    old :
        {n : ℕ} (x x0 : Withdrawal)
        → (n ≡ k) × (x ≡ f x0) ⊎ (n ≢ k) × (x ≡ x0)
        → x.reference ≡ x0.reference
    old x x0 (inl (_, p)) = ap (λ y. y.reference) p ∙ same x0
    old x x0 (inr (_, p)) = ap (λ y. y.reference) p

pub plus_pos : (n amount : ℕ) → pos n +ℤ pos amount ≡ pos (n + amount)
plus_pos n amount = omega int_laws

pub minus_pos : (n amount : ℕ) → pos (n + amount) -ℤ pos amount ≡ pos n
minus_pos n amount = omega int_laws

-- ===== src/Earnings/Ledger/Sums.antt =====
-- Sums over the earnings under one update, an insertion and an `updateMany`.
use fastmotion_delivery.Base.{
  ℕ, ◌+◌, ◌≡◌, ◌≢◌, refl, Bool, ◌&&◌, some, [], ◌∷◌, ◌++◌, arith, ◌==◌, if◌then◌else◌, Bool-cases,
  inl, inr,
}
use mathlib.Core.Option.{some-injective}
use fastmotion_delivery.Base.Dict.{Dict, lookup, update}
use fastmotion_delivery.Model.{Earning}
use fastmotion_delivery.Earnings.Withdraw.{sum_where, available_balance}
use fastmotion_delivery.Earnings.Review.{update_where, held_for, released, settled}

-- What an earning adds to a sum.
abbrev pub part : (Earning → Bool) → Earning → ℕ
part p e = if p e then e.amount else 0

pub sum-update :
    (p : Earning → Bool) (i : ℕ) (f : Earning → Earning) (es : Dict Earning) {e : Earning}
    → lookup i es ≡ some e
    → sum_where p (update i f es) + part p e ≡ sum_where p es + part p (f e)
unfolding sum_where lookup update
sum-update p i f [] h = cc
sum-update p i f ((j, d) ∷ es) {e} h = elim (Bool-cases (i == j)) [
  | inl same ↦ let de : d ≡ e = some-injective _ _ (rw same at h) in rw same (rw de (omega arith))
  | inr other ↦ rw other (omega (arith, sum-update p i f es {e = e} (rw other at h)))
]

pub sum-append :
    (p : Earning → Bool) (es : Dict Earning) (i : ℕ) (e : Earning)
    → sum_where p (es ++ ((i, e) ∷ [])) ≡ sum_where p es + part p e
unfolding sum_where
sum-append p [] i e = omega arith
sum-append p ((j, d) ∷ es) i e = omega (arith, sum-append p es i e)

-- What is held for a reference and belongs to the rider.
abbrev pub held_by : ℕ → ℕ → Earning → Bool
held_by ref rider e = held_for ref e && e.rider == rider

-- Releasing what is held for a reference makes it available to the riders that own it.
pub available-released :
    (rider ref : ℕ) (es : Dict Earning)
    → available_balance rider (update_where (held_for ref) released es)
      ≡ available_balance rider es + sum_where (held_by ref rider) es
unfolding available_balance sum_where update_where
available-released rider ref [] = omega arith
available-released rider ref ((i, e) ∷ es) = ground (arith, available-released rider ref es)

pub available-settled :
    (rider ref now : ℕ) (es : Dict Earning)
    → available_balance rider (update_where (held_for ref) (settled now) es)
      ≡ available_balance rider es
unfolding available_balance sum_where update_where
available-settled rider ref now [] = refl
available-settled rider ref now ((i, e) ∷ es) = ground (arith, available-settled rider ref now es)

pub held-released :
    (ref other rider : ℕ) (es : Dict Earning)
    → other ≢ ref
    → sum_where (held_by other rider) (update_where (held_for ref) released es)
      ≡ sum_where (held_by other rider) es
unfolding sum_where update_where
held-released ref other rider [] ne = refl
held-released ref other rider ((i, e) ∷ es) ne = ground (arith, held-released ref other rider es ne)

pub held-settled :
    (ref other rider now : ℕ) (es : Dict Earning)
    → other ≢ ref
    → sum_where (held_by other rider) (update_where (held_for ref) (settled now) es)
      ≡ sum_where (held_by other rider) es
unfolding sum_where update_where
held-settled ref other rider now [] ne = refl
held-settled ref other rider now ((i, e) ∷ es) ne =
    ground (arith, held-settled ref other rider now es ne)

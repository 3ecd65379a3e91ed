-- ===== src/Earnings/Ledger/Hold.antt =====
-- The loop of `withdrawEarnings` and the sums over the earnings.
use fastmotion_delivery.Base.{
  ℕ, ◌+◌, ◌-◌, ◌≤◌, ◌≡◌, refl, sym, subst, ◌∙◌, Bool, true, false, ◌&&◌, some, [], ◌∷◌, ◌++◌, arith,
  ◌==◌, leb, if◌then◌else◌, All, All-append, Bool-cases, inl, inr, ==_refl,
}
use fastmotion_delivery.Base.Dict.{Dict, lookup, update, lookup-update_ne}
use fastmotion_delivery.Model.{Earning}
use fastmotion_delivery.Earnings.Withdraw.{
  sum_where, find_where, available_of, hold, hold_whole, keep_part, held_part,
}
use fastmotion_delivery.Earnings.Ledger.Sums.{sum-update, sum-append, held_by}

-- No two entries have one key.
abbrev pub IsDistinct : Dict Earning → Type 0
IsDistinct [] = Unit
IsDistinct ((i, e) ∷ es) = All (λ x. (x.0 == i) ≡ false) es × IsDistinct es

-- Each entry is the document that its key finds in the collection.
abbrev pub IsStored : Dict Earning → Dict Earning → Type 0
IsStored es = All (λ x. lookup x.0 es ≡ some x.1)

All-find_where :
    (Q : ℕ × Earning → Type 0) (p : Earning → Bool) (es : Dict Earning)
    → All Q es
    → All Q (find_where p es)
unfolding find_where
All-find_where Q p [] a = tt
All-find_where Q p ((i, e) ∷ es) a = elim (Bool-cases (p e)) [
  | inl h ↦ rw h (a.0, All-find_where Q p es a.1)
  | inr h ↦ rw h (All-find_where Q p es a.1)
]

find_where-IsDistinct :
    (p : Earning → Bool) (es : Dict Earning) → IsDistinct es → IsDistinct (find_where p es)
unfolding find_where
find_where-IsDistinct p [] d = tt
find_where-IsDistinct p ((i, e) ∷ es) d = elim (Bool-cases (p e)) [
  | inl h ↦ rw h (All-find_where (λ x. (x.0 == i) ≡ false) p es d.0, find_where-IsDistinct p es d.1)
  | inr h ↦ rw h (find_where-IsDistinct p es d.1)
]

find_where-passes :
    (p : Earning → Bool) (es : Dict Earning) → All (λ x. p x.1 ≡ true) (find_where p es)
unfolding find_where
find_where-passes p [] = tt
find_where-passes p ((i, e) ∷ es) = elim (Bool-cases (p e)) [
  | inl h ↦ rw h (h, find_where-passes p es)
  | inr h ↦ rw h (find_where-passes p es)
]

pub sum-find_where :
    (p : Earning → Bool) (es : Dict Earning)
    → sum_where (λ _. true) (find_where p es) ≡ sum_where p es
unfolding find_where sum_where
sum-find_where p [] = refl
sum-find_where p ((i, e) ∷ es) = ground (arith, sum-find_where p es)

IsStored-cons :
    (i : ℕ) (e : Earning) (es xs : Dict Earning)
    → All (λ x. (x.0 == i) ≡ false) xs
    → IsStored es xs
    → IsStored ((i, e) ∷ es) xs
unfolding lookup
IsStored-cons i e es [] d s = tt
IsStored-cons i e es (x ∷ xs) d s = (rw d.0 s.0, IsStored-cons i e es xs d.1 s.1)

IsDistinct-IsStored : (es : Dict Earning) → IsDistinct es → IsStored es es
unfolding lookup
IsDistinct-IsStored [] d = tt
IsDistinct-IsStored ((i, e) ∷ es) d =
    (rw (==_refl i) refl, IsStored-cons i e es es d.0 (IsDistinct-IsStored es d.1))

-- What is fetched is distinct, stored, and passes the test.
pub record IsFetched (p : Earning → Bool) (es xs : Dict Earning) : Type 0 where
  pub distinct : IsDistinct xs
  pub stored : IsStored es xs
  pub passes : All (λ x. p x.1 ≡ true) xs

pub find_where-IsFetched :
    (p : Earning → Bool) (es : Dict Earning) → IsDistinct es → IsFetched p es (find_where p es)
find_where-IsFetched p es d = record {
  distinct = find_where-IsDistinct p es d;
  stored = All-find_where (λ x. lookup x.0 es ≡ some x.1) p es (IsDistinct-IsStored es d);
  passes = find_where-passes p es;
}

IsStored-update :
    (i : ℕ) (f : Earning → Earning) (es xs : Dict Earning)
    → All (λ x. (x.0 == i) ≡ false) xs
    → IsStored es xs
    → IsStored (update i f es) xs
IsStored-update i f es [] d s = tt
IsStored-update i f es (x ∷ xs) d s =
    (lookup-update_ne x.0 i f es (ground (arith, d.0)) ∙ s.0, IsStored-update i f es xs d.1 s.1)

hold_zero : (rider ref new_id : ℕ) (xs es : Dict Earning) → hold rider ref new_id xs 0 es ≡ es
unfolding hold
hold_zero rider ref new_id [] es = refl
hold_zero rider ref new_id (x ∷ xs) es = refl

-- The amount, if the predicate holds.
abbrev pub counted : Bool → ℕ → ℕ
counted b n = if b then n else 0

-- A sum that counts the available earnings (`a`) and the earnings held for the reference (`b`) of
-- the rider moves by the amount that the loop holds.
module _ (rider ref new_id : ℕ) (q : Earning → Bool) (a b : Bool)
    (before : (e : Earning) → available_of rider e ≡ true → q e ≡ a)
    (kept : (n : ℕ) (e : Earning) → available_of rider e ≡ true → q (keep_part n e) ≡ a)
    (whole : (e : Earning) → available_of rider e ≡ true → q (hold_whole ref e) ≡ b)
    (split : (n : ℕ) (e : Earning) → q (held_part rider ref n e) ≡ b) where
  pub sum-hold :
      (xs : Dict Earning) (n : ℕ) (es : Dict Earning)
      → IsFetched (available_of rider) es xs
      → n ≤ sum_where (λ _. true) xs
      → sum_where q (hold rider ref new_id xs n es) + counted a n ≡ sum_where q es + counted b n
  unfolding hold sum_where
  sum-hold [] n es f le = ground arith
  sum-hold ((i, e) ∷ xs) n es f le =
      let mine = f.passes.0 in
      let held : Dict Earning = update i (hold_whole ref) es in
      let shrunk : Dict Earning = update i (keep_part (e.amount - n)) es in
      let rest : IsFetched (available_of rider) held xs = record {
        distinct = f.distinct.1;
        stored = IsStored-update i (hold_whole ref) es xs f.distinct.0 f.stored.1;
        passes = f.passes.1;
      } in
      ground (
        arith,
        before e mine,
        whole e mine,
        kept (e.amount - n) e mine,
        split n e,
        sum-update q i (hold_whole ref) es f.stored.0,
        sum-update q i (keep_part (e.amount - n)) es f.stored.0,
        sum-append q shrunk new_id (held_part rider ref n e),
        hold_zero rider ref new_id xs (shrunk ++ ((new_id, held_part rider ref n e) ∷ [])),
        sum-hold xs (n - e.amount) held rest,
      )

-- Holding takes the amount from what is available to the rider, and nothing from other riders.
pub available-hold :
    (rider ref new_id r n : ℕ) (es xs : Dict Earning)
    → IsFetched (available_of rider) es xs
    → n ≤ sum_where (λ _. true) xs
    → sum_where (available_of r) (hold rider ref new_id xs n es) + counted (rider == r) n
      ≡ sum_where (available_of r) es
available-hold rider ref new_id r n es xs f le =
    sum-hold rider ref new_id (available_of r) (rider == r) false (λ e h. ground arith)
      (λ m e h. ground arith) (λ e h. ground arith) (λ m e. ground arith) xs n es f le
    ∙ omega arith

-- Holding adds the amount to what is held for the reference, and nothing elsewhere.
pub held-hold :
    (rider ref new_id other r n : ℕ) (es xs : Dict Earning)
    → IsFetched (available_of rider) es xs
    → n ≤ sum_where (λ _. true) xs
    → sum_where (held_by other r) (hold rider ref new_id xs n es)
      ≡ sum_where (held_by other r) es + counted (ref == other && rider == r) n
held-hold rider ref new_id other r n es xs f le = omega (
  arith,
  sum-hold rider ref new_id (held_by other r) false (ref == other && rider == r)
      (λ e h. ground arith) (λ m e h. ground arith) (λ e h. ground arith) (λ m e. ground arith) xs n
      es f le,
)

All-update :
    (Q : ℕ → Type 0) (i : ℕ) (f : Earning → Earning) (es : Dict Earning)
    → All (λ x. Q x.0) es
    → All (λ x. Q x.0) (update i f es)
unfolding update
All-update Q i f [] a = tt
All-update Q i f ((j, e) ∷ es) a = elim (Bool-cases (i == j)) [
  | inl same ↦ rw same a
  | inr other ↦ rw other (a.0, All-update Q i f es a.1)
]

update-IsDistinct :
    (i : ℕ) (f : Earning → Earning) (es : Dict Earning) → IsDistinct es → IsDistinct (update i f es)
unfolding update
update-IsDistinct i f [] d = tt
update-IsDistinct i f ((j, e) ∷ es) d = elim (Bool-cases (i == j)) [
  | inl same ↦ rw same d
  | inr other ↦
      rw other (All-update (λ k. (k == j) ≡ false) i f es d.0, update-IsDistinct i f es d.1)
]

-- No entry has the key.
abbrev pub IsNew : ℕ → Dict Earning → Type 0
IsNew k = All (λ x. (x.0 == k) ≡ false)

pub append-IsDistinct :
    (k : ℕ) (e : Earning) (es : Dict Earning)
    → IsNew k es
    → IsDistinct es
    → IsDistinct (es ++ ((k, e) ∷ []))
append-IsDistinct k e [] n d = (tt, tt)
append-IsDistinct k e ((j, x) ∷ es) n d = (
  All-append (λ x. (x.0 == j) ≡ false) es ((k, e) ∷ []) d.0 (ground (arith, n.0), tt),
  append-IsDistinct k e es n.1 d.1,
)

pub hold-IsDistinct :
    (rider ref new_id : ℕ) (xs : Dict Earning) (n : ℕ) (es : Dict Earning)
    → IsNew new_id es
    → IsDistinct es
    → IsDistinct (hold rider ref new_id xs n es)
unfolding hold
hold-IsDistinct rider ref new_id [] n es k d = d
hold-IsDistinct rider ref new_id ((i, e) ∷ xs) n es k d =
    let held : Dict Earning = update i (hold_whole ref) es in
    let shrunk : Dict Earning = update i (keep_part (e.amount - n)) es in
    elim (Bool-cases (n == 0)) [
      | inl stop ↦ rw stop d
      | inr go ↦ rw go (elim (Bool-cases (leb e.amount n)) [
        | inl fits ↦ rw fits (
            hold-IsDistinct rider ref new_id xs (n - e.amount) held
              (All-update (λ j. (j == new_id) ≡ false) i (hold_whole ref) es k)
              (update-IsDistinct i (hold_whole ref) es d))
        | inr splits ↦ rw splits (
            subst IsDistinct
              (sym (
                hold_zero rider ref new_id xs (shrunk ++ ((new_id, held_part rider ref n e) ∷ []))))
              (append-IsDistinct new_id (held_part rider ref n e) shrunk
                (All-update (λ j. (j == new_id) ≡ false) i (keep_part (e.amount - n)) es k)
                (update-IsDistinct i (keep_part (e.amount - n)) es d)))
      ])
    ]

-- ===== src/Base/Dict.antt =====
-- A collection of documents keyed by `_id`, in insertion order.
use Prim.Native.Nat.{ℕ, ◌+◌}
use mathlib.Core.Path.{◌≡◌, refl, sym, ap, subst, ◌∙◌}
use mathlib.Core.Logic.{◌≢◌, ◌⊎◌, inl, inr}
use mathlib.Core.Bool.{Bool}
use mathlib.Core.Option.{Option, none, some, some-injective}
use mathlib.Core.List.{List, [], ◌∷◌, ◌++◌}
use native.Mathlib.Omega.{arith}
use fastmotion_delivery.Base.Tests.{◌==◌, if◌then◌else◌, Bool-cases, Option-cases, ==→eq}

abbrev pub Dict {ℓ} : Type ℓ → Type ℓ
Dict V = List (ℕ × V)

module _ {ℓ} {V : Type ℓ} where
  -- `findById`
  unfoldable pub lookup : ℕ → Dict V → Option V
  lookup k [] = none
  lookup k ((j, v) ∷ d) = if k == j then some v else lookup k d

  -- `updateOne({ _id: k }, …)`: an absent document is left absent.
  unfoldable pub update : ℕ → (V → V) → Dict V → Dict V
  update k f [] = []
  update k f ((j, v) ∷ d) = if k == j then (j, f v) ∷ d else (j, v) ∷ update k f d

  -- `findByIdAndDelete`, and `del` of a Redis key
  unfoldable pub erase : ℕ → Dict V → Dict V
  erase k [] = []
  erase k ((j, v) ∷ d) = if k == j then erase k d else (j, v) ∷ erase k d

  -- `hset` of every field of a Redis key
  abbrev pub put : ℕ → V → Dict V → Dict V
  put k v d = erase k d ++ ((k, v) ∷ [])

  -- `countDocuments`, by a test on the key and the document
  unfoldable pub count : (ℕ → V → Bool) → Dict V → ℕ
  count p [] = 0
  count p ((j, v) ∷ d) = (if p j v then 1 else 0) + count p d

  pub lookup-update_self :
      (k : ℕ) (f : V → V) (d : Dict V) {v : V}
      → lookup k d ≡ some v
      → lookup k (update k f d) ≡ some (f v)
  unfolding lookup update
  lookup-update_self k f [] h = cc
  lookup-update_self k f ((i, w) ∷ d) {v} h = elim (Bool-cases (k == i)) [
    | inl e ↦ rw e (rw e (ap (λ x. some (f x)) (some-injective w v (rw e at h))))
    | inr e ↦ rw e (rw e (lookup-update_self k f d (rw e at h)))
  ]

  pub lookup-update-none :
      (k : ℕ) (f : V → V) (d : Dict V) → lookup k d ≡ none → lookup k (update k f d) ≡ none
  unfolding lookup update
  lookup-update-none k f [] h = refl
  lookup-update-none k f ((i, w) ∷ d) h = ground (arith, lookup-update-none k f d)

  pub lookup-update_ne :
      (j k : ℕ) (f : V → V) (d : Dict V) → j ≢ k → lookup j (update k f d) ≡ lookup j d
  unfolding lookup update
  lookup-update_ne j k f [] h = refl
  lookup-update_ne j k f ((i, w) ∷ d) h = ground (arith, lookup-update_ne j k f d h)

  -- Every document has the property.
  abbrev pub Always {κ} : (ℕ → V → Type κ) → Dict V → Type (ℓ ⊔ κ)
  Always P d = (k : ℕ) (v : V) → lookup k d ≡ some v → P k v

  pub Always-update {κ} :
      (P : ℕ → V → Type κ) (k : ℕ) (f : V → V) (d : Dict V)
      → ((v : V) → lookup k d ≡ some v → P k v → P k (f v))
      → Always P d
      → Always P (update k f d)
  Always-update P k f d keep h j w e = elim (Bool-cases (j == k)) [
    | inl same ↦
        let jk : j ≡ k = ==→eq j k same in
        let e' : lookup k (update k f d) ≡ some w =
          subst (λ i. lookup i (update k f d) ≡ some w) jk e in
        elim (Option-cases (lookup k d)) [
          | inl absent ↦ cc (lookup-update-none k f d absent, e')
          | inr (v, found) ↦
              let fv : f v ≡ w = some-injective _ _ (sym (lookup-update_self k f d found) ∙ e') in
              subst (λ i. P i w) (sym jk) (subst (P k) fv (keep v found (h k v found)))
        ]
    | inr other ↦ h j w (sym (lookup-update_ne j k f d (ground arith)) ∙ e)
  ]

  -- Where a document of an updated collection comes from.
  pub lookup-update_inv :
      (j k : ℕ) (f : V → V) (d : Dict V) {w : V}
      → lookup j (update k f d) ≡ some w
      → (v : V) × (lookup j d ≡ some v) × ((j ≡ k) × (w ≡ f v) ⊎ (j ≢ k) × (w ≡ v))
  lookup-update_inv j k f d {w} e = elim (Bool-cases (j == k)) [
    | inl same ↦
        let jk : j ≡ k = ==→eq j k same in
        elim (Option-cases (lookup j d)) [
          | inl absent ↦
              let gone =
                subst (λ i. lookup i (update k f d) ≡ none) (sym jk)
                  (lookup-update-none k f d (subst (λ i. lookup i d ≡ none) jk absent)) in
              cc (gone, e)
          | inr (v, found) ↦
              let here =
                subst (λ i. lookup i (update k f d) ≡ some (f v)) (sym jk)
                  (lookup-update_self k f d (subst (λ i. lookup i d ≡ some v) jk found)) in
              (v, found, inl (jk, some-injective _ _ (sym e ∙ here)))
        ]
    | inr other ↦
        let ne : j ≢ k = ground arith in (w, sym (lookup-update_ne j k f d ne) ∙ e, inr (ne, refl))
  ]

  -- Where a document of a collection with one more comes from.
  pub lookup-append_inv :
      (j k : ℕ) (d : Dict V) (x w : V)
      → lookup j (d ++ ((k, x) ∷ [])) ≡ some w
      → (lookup j d ≡ some w) ⊎ ((j ≡ k) × (w ≡ x))
  unfolding lookup
  lookup-append_inv j k [] x w e = ground arith
  lookup-append_inv j k ((i, v) ∷ d) x w e = ground (arith, lookup-append_inv j k d x w)

  pub Always-append {κ} :
      (P : ℕ → V → Type κ) (k : ℕ) (x : V) (d : Dict V)
      → Always P d
      → P k x
      → Always P (d ++ ((k, x) ∷ []))
  Always-append P k x d h p j w e = elim (lookup-append_inv j k d x w e) [
    | inl old ↦ h j w old
    | inr (jk, wx) ↦ subst (P j) (sym wx) (subst (λ i. P i x) (sym jk) p)
  ]

  -- A new key of a collection with one more, and the old keys.
  pub lookup-append_new :
      (k : ℕ) (d : Dict V) (x : V) → lookup k d ≡ none → lookup k (d ++ ((k, x) ∷ [])) ≡ some x
  unfolding lookup
  lookup-append_new k [] x e = ground arith
  lookup-append_new k ((i, v) ∷ d) x e = ground (arith, lookup-append_new k d x)

  pub lookup-append_old :
      (j k : ℕ) (d : Dict V) (x : V) {v : V}
      → lookup j d ≡ some v
      → lookup j (d ++ ((k, x) ∷ [])) ≡ some v
  unfolding lookup
  lookup-append_old j k [] x e = cc
  lookup-append_old j k ((i, y) ∷ d) x {v = v} e = ground (arith, lookup-append_old j k d x {v = v})

  pub lookup-erase_self : (k : ℕ) (d : Dict V) → lookup k (erase k d) ≡ none
  unfolding lookup erase
  lookup-erase_self k [] = refl
  lookup-erase_self k ((i, v) ∷ d) = ground (arith, lookup-erase_self k d)

  pub lookup-erase_ne : (j k : ℕ) (d : Dict V) → j ≢ k → lookup j (erase k d) ≡ lookup j d
  unfolding lookup erase
  lookup-erase_ne j k [] ne = refl
  lookup-erase_ne j k ((i, v) ∷ d) ne = ground (arith, lookup-erase_ne j k d ne)

  -- What is left of a collection was in it.
  pub lookup-erase_inv :
      (j k : ℕ) (d : Dict V) {w : V} → lookup j (erase k d) ≡ some w → lookup j d ≡ some w
  lookup-erase_inv j k d e = elim (Bool-cases (j == k)) [
    | inl same ↦
        cc (
          subst (λ i. lookup i (erase k d) ≡ none) (sym (==→eq j k same)) (lookup-erase_self k d),
          e,
        )
    | inr other ↦ sym (lookup-erase_ne j k d (ground arith)) ∙ e
  ]

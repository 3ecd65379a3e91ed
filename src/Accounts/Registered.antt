-- ===== src/Accounts/Registered.antt =====
-- What holds of all users and tokens, whatever is asked for.
use fastmotion_delivery.Base.{
  ℕ, ◌≡◌, ◌≢◌, ◌⊎◌, inl, inr, refl, sym, ap, subst, ◌∙◌, Bool, true, Option, none, some, List, [],
  ◌∷◌, ◌++◌, arith, ◌==◌, Bool-cases,
}
use fastmotion_delivery.Base.Dict.{Dict, lookup, update, lookup-update_inv, lookup-append_inv}
use fastmotion_delivery.Model.{Db, Text, User}
use fastmotion_delivery.Accounts.Contact.{find_user, by_email, has_text, text_eq}
use fastmotion_delivery.Accounts.Request.{AccountRequest, serve_account, serve_accounts}
use fastmotion_delivery.Accounts.Sessions.{IsSingle}
use fastmotion_delivery.Accounts.Writes.{Wrote}
use fastmotion_delivery.Accounts.Served.{serve-Wrote}

-- No two users have the same email.
abbrev pub IsUnique : Dict User → Type 0
IsUnique us =
    (i j : ℕ) (u v : User) (e : Text)
    → lookup i us ≡ some u
    → lookup j us ≡ some v
    → u.email ≡ some e
    → v.email ≡ some e
    → i ≡ j

text_eq_refl : (s : Text) → text_eq s s ≡ true
unfolding text_eq
text_eq_refl [] = refl
text_eq_refl (c ∷ s) = ground (arith, text_eq_refl s)

has_text_self : (e : Text) (o : Option Text) → o ≡ some e → has_text e o ≡ true
has_text_self e o h = subst (λ x. has_text e x ≡ true) (sym h) (text_eq_refl e)

found_here :
    (e : Text) (x : User) (us : Dict User) (i k : ℕ) (u : User)
    → find_user (by_email e) ((k, x) ∷ us) ≡ none
    → lookup i ((k, x) ∷ us) ≡ some u
    → i == k ≡ true
    → u.email ≢ some e
unfolding find_user lookup
found_here e x us i k u n f here same =
    let xu : x ≡ u = ground arith in
    let by = has_text_self e x.email (ap (λ z. z.email) xu ∙ same) in cc (rw by at n)

-- A user who has the email is found by it.
not_found :
    (e : Text) (us : Dict User) (i : ℕ) (u : User)
    → find_user (by_email e) us ≡ none
    → lookup i us ≡ some u
    → u.email ≢ some e
unfolding find_user lookup
not_found e [] i u n f = cc
not_found e ((k, x) ∷ us) i u n f = elim (Bool-cases (i == k)) [
  | inl here ↦ λ same. found_here e x us i k u n f here same
  | inr there ↦ not_found e us i u (ground arith) (ground arith)
]

kept_email :
    {i : ℕ} (k : ℕ) (f : User → User) {u v : User}
    → ((w : User) → (f w).email ≡ w.email)
    → (i ≡ k) × (u ≡ f v) ⊎ (i ≢ k) × (u ≡ v)
    → u.email ≡ v.email
kept_email k f {v = v} keep (inl (ik, uf)) = ap (λ z. z.email) uf ∙ keep v
kept_email k f keep (inr (ne, uv)) = ap (λ z. z.email) uv

changed-IsUnique :
    (k : ℕ) (f : User → User) (us : Dict User)
    → ((u : User) → (f u).email ≡ u.email)
    → IsUnique us
    → IsUnique (update k f us)
changed-IsUnique k f us keep h i j u v e iu jv ue ve =
    let (u', iu', fu) = lookup-update_inv i k f us iu in
    let (v', jv', fv) = lookup-update_inv j k f us jv in
    h i j u' v' e iu' jv' (sym (kept_email k f keep fu) ∙ ue) (sym (kept_email k f keep fv) ∙ ve)

added-IsUnique :
    (k : ℕ) (x : User) (e : Text) (us : Dict User)
    → x.email ≡ some e
    → find_user (by_email e) us ≡ none
    → IsUnique us
    → IsUnique (us ++ ((k, x) ∷ []))
added-IsUnique k x e us xe n h i j u v d iu jv ud vd = elim (lookup-append_inv i k us x u iu) [
  | inl io ↦ elim (lookup-append_inv j k us x v jv) [
    | inl jo ↦ h i j u v d io jo ud vd
    | inr (jk, vx) ↦ absurd (not_found e us i u n io (ud ∙ sym vd ∙ ap (λ z. z.email) vx ∙ xe))
  ]
  | inr (ik, ux) ↦ elim (lookup-append_inv j k us x v jv) [
    | inl jo ↦ absurd (not_found e us j v n jo (vd ∙ sym ud ∙ ap (λ z. z.email) ux ∙ xe))
    | inr (jk, vx) ↦ ik ∙ sym jk
  ]
]

serve-keeps :
    (matches : (password hash : ℕ) → Bool) (q : AccountRequest) (s : Db)
    → IsUnique s.users × IsSingle s.refresh_tokens
    → IsUnique (serve_account matches q s).users
      × IsSingle (serve_account matches q s).refresh_tokens
serve-keeps matches q s (h, one) = elim (serve-Wrote matches q s) [
  | Wrote.kept e r ↦ (subst IsUnique (sym e) h, r one)
  | Wrote.changed k f keep e r ↦
      (subst IsUnique (sym e) (changed-IsUnique k f s.users keep h), r one)
  | Wrote.added k u e ue n eq r ↦
      (subst IsUnique (sym eq) (added-IsUnique k u e s.users ue n h), r one)
]

-- Whatever is asked for, in whatever order and however passwords are compared: no two users have the
-- same email, and no user has two live refresh tokens, if it was so at the start.
pub serve_accounts-IsUnique :
    (matches : (password hash : ℕ) → Bool) (qs : List AccountRequest) (s : Db)
    → IsUnique s.users × IsSingle s.refresh_tokens
    → let t = serve_accounts matches qs s in IsUnique t.users × IsSingle t.refresh_tokens
unfolding serve_accounts
serve_accounts-IsUnique matches [] s h = h
serve_accounts-IsUnique matches (q ∷ qs) s h =
    serve_accounts-IsUnique matches qs (serve_account matches q s) (serve-keeps matches q s h)

-- ===== src/Accounts/Phones.antt =====
-- What the formatter of phone numbers comes to.
use fastmotion_delivery.Base.{
  ◌≡◌, ◌⊎◌, inl, inr, refl, sym, ap, ◌∙◌, not, ◌&&◌, [], ◌∷◌, ◌++◌, ◌==◌, Bool-cases, length,
}
use fastmotion_delivery.Model.{Text}
use fastmotion_delivery.Accounts.Contact.{
  starts_with, plus_country, country, zero_digit, phone_formatter, drop,
}

international : (n : Text) → phone_formatter (plus_country ++ n) ≡ plus_country ++ n
unfolding phone_formatter
international n = refl

-- A number in its local spelling, with the country's digits, and in its international spelling is
-- stored as the same number, the last of these.
pub spellings_agree :
    (n : Text)
    → (phone_formatter (zero_digit ++ n) ≡ plus_country ++ n)
      × (phone_formatter (country ++ n) ≡ plus_country ++ n)
      × (phone_formatter (plus_country ++ n) ≡ plus_country ++ n)
unfolding phone_formatter
spellings_agree n = (refl, refl, refl)

-- A formatted number starts with +234, or is the number as it was typed in.
format-cases :
    (p : Text) → ((m : Text) × (phone_formatter p ≡ plus_country ++ m)) ⊎ (phone_formatter p ≡ p)
unfolding phone_formatter
format-cases [] = inl (57 ∷ 48 ∷ [], refl)
format-cases (c ∷ s) = elim (Bool-cases (c == 48)) [
  | inl e ↦ inl (s, rw e refl)
  | inr e ↦ elim (Bool-cases (starts_with plus_country (c ∷ s))) [
    | inl a ↦ inr (rw e (rw a refl))
    | inr a ↦ elim (Bool-cases (starts_with country (c ∷ s))) [
      | inl b ↦ inl (drop 3 (c ∷ s), rw e (rw a (rw b refl)))
      | inr b ↦ elim (Bool-cases (length (c ∷ s) == 10 && not (starts_with zero_digit (c ∷ s)))) [
        | inl l ↦ inl (c ∷ s, rw e (rw a (rw b (rw l refl))))
        | inr l ↦ inr (rw e (rw a (rw b (rw l refl))))
      ]
    ]
  ]
]

-- Formatting a formatted number changes nothing, whatever was typed in.
pub phone_formatter_idem : (p : Text) → phone_formatter (phone_formatter p) ≡ phone_formatter p
phone_formatter_idem p = elim (format-cases p) [
  | inl (m, e) ↦ ap phone_formatter e ∙ international m ∙ sym e
  | inr e ↦ ap phone_formatter e
]

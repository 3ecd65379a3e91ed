-- ===== src/RiderAccounts/Numbers.antt =====
-- The phone number of a rider, which is stored as an admin typed it in.
use fastmotion_delivery.Base.{
  ℕ, ◌≡◌, inl, inr, refl, ap, ◌∙◌, true, false, not, ◌&&◌, [], ◌∷◌, ◌++◌, arith, ◌==◌, Bool-cases,
  length,
}
use fastmotion_delivery.Model.{Text, Rider}
use fastmotion_delivery.Accounts.{
  phone_formatter, is_phone, text_eq, zero_digit, starts_with, plus_country, country,
}
use fastmotion_delivery.RiderAccounts.Lookup.{rider_by_contact}

never_local : (n p : Text) → text_eq (zero_digit ++ n) (phone_formatter p) ≡ false
unfolding phone_formatter text_eq
never_local n [] = refl
never_local n (c ∷ s) = elim (Bool-cases (c == 48)) [
  | inl e ↦ rw e refl
  | inr e ↦ elim (Bool-cases (starts_with plus_country (c ∷ s))) [
    | inl a ↦ rw e (rw a (ground arith))
    | inr a ↦ elim (Bool-cases (starts_with country (c ∷ s))) [
      | inl b ↦ rw e (rw a (rw b refl))
      | inr b ↦ elim (Bool-cases (length (c ∷ s) == 10 && not (starts_with zero_digit (c ∷ s)))) [
        | inl l ↦ rw e (rw a (rw b (rw l refl)))
        | inr l ↦ rw e (rw a (rw b (rw l (ground arith))))
      ]
    ]
  ]
]

-- A rider whose number was typed in with a leading 0 is found by no phone number, this one included.
pub local_number_unfound :
    (number contact : Text) (k : ℕ) (r : Rider)
    → r.account.phone ≡ zero_digit ++ number
    → is_phone contact ≡ true
    → rider_by_contact contact k r ≡ false
local_number_unfound number contact k r e h =
    rw h (ap (λ p. text_eq p (phone_formatter contact)) e ∙ never_local number contact)

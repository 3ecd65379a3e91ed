-- ===== src/Accounts/Contact.antt =====
-- libs/common/src/utils/others.ts (phoneFormatter), and how users are found by email and phone.
use fastmotion_delivery.Base.{
  ℕ, zero, suc, Bool, true, false, not, ◌&&◌, Option, none, some, [], ◌∷◌, ◌++◌, ◌==◌, leb,
  if◌then◌else◌, length,
}
use fastmotion_delivery.Base.Dict.{Dict}
use fastmotion_delivery.Model.{Text, User}

abbrev pub drop : ℕ → Text → Text
drop zero s = s
drop (suc n) [] = []
drop (suc n) (c ∷ s) = drop n s

-- `s.startsWith(p)`
unfoldable pub starts_with : (p s : Text) → Bool
starts_with [] s = true
starts_with (c ∷ p) [] = false
starts_with (c ∷ p) (d ∷ s) = c == d && starts_with p s

-- '+234', '234' and '0'
abbrev pub plus_country : Text
plus_country = 43 ∷ 50 ∷ 51 ∷ 52 ∷ []

abbrev pub country : Text
country = 50 ∷ 51 ∷ 52 ∷ []

abbrev pub zero_digit : Text
zero_digit = 48 ∷ []

-- The first part of `phoneFormatter`: '090' for an empty number, and +234 for a leading 0.
abbrev pub with_country : Text → Text
with_country [] = plus_country ++ (57 ∷ 48 ∷ [])
with_country (c ∷ s) = if c == 48 then plus_country ++ s else c ∷ s

-- `phoneFormatter`
unfoldable pub phone_formatter : Text → Text
unfolding starts_with
phone_formatter p =
    let s = with_country p in
    if starts_with plus_country s
    then s
    else if starts_with country s
    then plus_country ++ drop 3 s
    else if length s == 10 && not (starts_with zero_digit s)
    then plus_country ++ s
    else s

abbrev pub is_digit : ℕ → Bool
is_digit c = leb 48 c && leb c 57

unfoldable pub are_digits : Text → Bool
are_digits [] = true
are_digits (c ∷ s) = is_digit c && are_digits s

-- `s.startsWith('+') || /^\d+$/.test(s)`
unfoldable pub is_phone : Text → Bool
is_phone [] = false
is_phone (c ∷ s) = if c == 43 then true else is_digit c && are_digits s

unfoldable pub text_eq : Text → Text → Bool
text_eq [] [] = true
text_eq [] (d ∷ t) = false
text_eq (c ∷ s) [] = false
text_eq (c ∷ s) (d ∷ t) = c == d && text_eq s t

abbrev pub has_text : Text → Option Text → Bool
has_text s none = false
has_text s (some t) = text_eq t s

-- `findOne(filter)`
unfoldable pub find_user : (User → Bool) → Dict User → Option (ℕ × User)
find_user p [] = none
find_user p ((k, u) ∷ us) = if p u then some (k, u) else find_user p us

abbrev pub by_email : Text → User → Bool
by_email e u = has_text e u.email

abbrev pub by_phone : Text → User → Bool
by_phone p u = has_text p u.phone

-- The filter of a text that is an email or a phone number.
abbrev pub by_contact : Text → User → Bool
by_contact s u = if is_phone s then by_phone (phone_formatter s) u else by_email s u

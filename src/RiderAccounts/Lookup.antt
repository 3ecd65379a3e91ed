-- ===== src/RiderAccounts/Lookup.antt =====
-- How riders are found by a text that is an email or a phone number, and the changes of an account.
use fastmotion_delivery.Base.{
  ℕ, ◌+◌, Bool, ◌&&◌, ◌||◌, Option, none, some, [], ◌∷◌, map, ◌==◌, leb, if◌then◌else◌,
}
use fastmotion_delivery.Base.Dict.{Dict, lookup}
use fastmotion_delivery.Model.{
  Text, Rider, RiderAccount, Handler, HttpError, gets, some_or, require, pure, ◌>>=◌, ◌>>◌,
}
use fastmotion_delivery.Accounts.{phone_formatter, is_phone, text_eq}

-- The whitespace that occurs in a request: a space, and the characters from tab to carriage return.
abbrev pub is_space : ℕ → Bool
is_space c = c == 32 || (leb 9 c && leb c 13)

unfoldable pub trim_start : Text → Text
trim_start [] = []
trim_start (c ∷ s) = if is_space c then trim_start s else c ∷ s

abbrev pub snoc_start : ℕ → Text → Text
snoc_start c [] = if is_space c then [] else c ∷ []
snoc_start c (d ∷ s) = c ∷ d ∷ s

unfoldable pub trim_end : Text → Text
trim_end [] = []
trim_end (c ∷ s) = snoc_start c (trim_end s)

-- `toLowerCase` and `toUpperCase` of a letter from A to Z.
abbrev pub lower : ℕ → ℕ
lower c = if leb 65 c && leb c 90 then c + 32 else c

abbrev pub same_letter : ℕ → ℕ → Bool
same_letter c d = lower c == lower d

-- `s.toLowerCase().trim()`
abbrev pub normal_email : Text → Text
normal_email s = trim_end (trim_start (map lower s))

-- `findOne(filter)`
unfoldable pub find_rider : (ℕ → Rider → Bool) → Dict Rider → Option (ℕ × Rider)
find_rider p [] = none
find_rider p ((k, r) ∷ rs) = if p k r then some (k, r) else find_rider p rs

abbrev pub rider_by_email : Text → ℕ → Rider → Bool
rider_by_email e k r = text_eq r.account.email e

abbrev pub rider_by_phone : Text → ℕ → Rider → Bool
rider_by_phone p k r = text_eq r.account.phone p

-- The filter that `verifyRider`, `forgotPassword` and `resetPassword` make from a text.
abbrev pub rider_by_contact : Text → ℕ → Rider → Bool
rider_by_contact s k r =
    if is_phone s
    then rider_by_phone (phone_formatter s) k r
    else rider_by_email (normal_email s) k r

abbrev pub change_account : (RiderAccount → RiderAccount) → Rider → Rider
change_account f r = record r { account = f r.account }

-- `findById`, and a throw where there is no rider
abbrev pub known_rider : (rider : ℕ) → Handler Rider
known_rider k = gets (λ s. lookup k s.riders) >>= λ o. some_or o HttpError.not_found

-- `validate` of the JWT strategy, for a token of this rider.
unfoldable pub current_rider : (rider : ℕ) → Handler Rider
current_rider k = do
  o ← gets (λ s. lookup k s.riders)
  r ← some_or o HttpError.unauthorized
  require r.is_active HttpError.unauthorized
  pure r

-- ===== src/Tests/AccountRuns.antt =====
-- The theorems on accounts at concrete states.
use fastmotion_delivery.Base.{ℕ, ◌≡◌, ◌↔◌, ◌==◌, Bool, true, none, some, List, [], ◌∷◌, arith}
use fastmotion_delivery.Base.Dict.{lookup}
use fastmotion_delivery.Model.{Db, Text, User, is_ok}
use fastmotion_delivery.Accounts.{
  phone_formatter, find_user, email_pending, new_user, verify_email_otp, AccountRequest,
  serve_accounts,
}
use fastmotion_delivery.Accounts.Sessions.{IsSingle, live}
use fastmotion_delivery.Accounts.Codes.{IsGood, verify_email_iff}
use fastmotion_delivery.Accounts.Registered.{IsUnique, serve_accounts-IsUnique}
use fastmotion_delivery.Tests.Data.{empty_db}

abbrev ada : Text
ada = 97 ∷ 100 ∷ 97 ∷ 64 ∷ 120 ∷ []

abbrev local : Text
local = 48 ∷ 56 ∷ 48 ∷ 51 ∷ []

abbrev ada_doc : User
ada_doc = new_user ada (phone_formatter local) 900 4321 1000

-- A user who has just registered.
abbrev registered_db : Db
registered_db = record empty_db { users = (30, ada_doc) ∷ [] }

-- A password is its own hash.
abbrev matches : (password hash : ℕ) → Bool
matches password hash = hash == password

-- The code is confirmed, the user signs in and out, and somebody registers with the same email.
abbrev asks : List AccountRequest
asks =
    AccountRequest.email_code ada 4321 11 2000
    ∷ AccountRequest.sign ada 900 5 12 3000
    ∷ AccountRequest.leave 30 none
    ∷ AccountRequest.register ada local 1 1 901 6 31 4000
    ∷ []

registered-IsUnique : IsUnique registered_db.users
unfolding lookup
registered-IsUnique i j u v e iu jv ue ve = ground arith

no_tokens-IsSingle : IsSingle registered_db.refresh_tokens
unfolding live
no_tokens-IsSingle user = omega arith

serve_accounts-IsUnique_example :
    let t = serve_accounts matches asks registered_db in
    IsUnique t.users × IsSingle t.refresh_tokens
serve_accounts-IsUnique_example =
    serve_accounts-IsUnique matches asks registered_db (registered-IsUnique, no_tokens-IsSingle)

verify_email_iff_example : (is_ok (verify_email_otp ada 4321 11 2000 registered_db).0 ≡ true) ↔ (
    (k : ℕ) × (u : User) × (find_user (email_pending ada) registered_db.users ≡ some (k, u))
    × IsGood 4321 2000 u.email_confirmation_code u.email_confirmation_expiry_date)
verify_email_iff_example = verify_email_iff ada 4321 11 2000 registered_db

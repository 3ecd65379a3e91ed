-- ===== src/Model/Effects.antt =====
-- The state that a handler reads and writes, the errors it throws, and handlers in sequence. A
-- write that was made before an exception stays made.
use fastmotion_delivery.Base.{
  ℕ, ◌≡◌, ap, Bool, true, false, Option, none, some, List, [], ◌∷◌, ◌++◌, if◌then◌else◌,
}
use fastmotion_delivery.Base.Dict.{Dict, lookup, update}
use fastmotion_delivery.Model.Status.{DeliveryStatus}
use fastmotion_delivery.Model.Payments.{Payment, Wallet, WalletTransaction, PendingDelivery}
use fastmotion_delivery.Model.Queues.{MatchingState, Cooldown}
use fastmotion_delivery.Model.Documents.{
  Delivery, Rider, Earning, PlatformEarning, Withdrawal, PayoutConfig, Rating,
}
use fastmotion_delivery.Model.Disputes.{Dispute}
use fastmotion_delivery.Model.Accounts.{User, RefreshToken}

-- What a handler sends: to the sockets of a delivery, to the customer's phone, on the channel of
-- the matching service, and on the event bus of the user service.
pub data Event : Type 0 where
  status_update : ℕ → DeliveryStatus → Event
  system_chat : ℕ → Event
  push_customer push_rider admin_logged : ℕ → Event
  rescheduled : (delivery rider : ℕ) → Event
  rider_accepted : ℕ → Event
  rider_rejected : (delivery rider customer : ℕ) → Event
  created_quick created_scheduled : ℕ → Event
  refund_requested : (delivery customer amount : ℕ) → Event
  delivery_cancelled : (delivery rider : ℕ) → Event
  payment_initiate : (delivery customer amount : ℕ) → Event
  payment_confirmed : ℕ → Event
  new_request : (rider delivery payout : ℕ) → Event
  request_sent : (delivery index total : ℕ) → Event
  request_timeout request_rejected : (delivery index total : ℕ) → Event
  exhausted_retrying exhausted_cancelled : ℕ → Event
  payment_completed : (delivery user amount : ℕ) → Event
  payment_refunded : (user delivery amount : ℕ) → Event
  dispute_created : (dispute delivery : ℕ) (rider : Option ℕ) → Event
  dispute_message_added : ℕ → Event
  notified : (user dispute : ℕ) → Event
  user_registered verification_requested reset_requested : (user code : ℕ) → Event
  user_welcome rider_welcome : ℕ → Event
  rating_created : (rating delivery rider : ℕ) → Event
  withdrawal_requested withdrawal_failed : (user amount : ℕ) → Event

-- The cached commission of the rider service: rate, minimum and the time of the lookup.
pub record CommissionCache : Type 0 where
  pub rate : ℕ
  pub min : ℕ
  pub ts : ℕ

pub record Db : Type 0 where
  pub deliveries : Dict Delivery
  pub riders : Dict Rider
  pub earnings : Dict Earning
  pub platform_earnings : List PlatformEarning
  pub withdrawals : Dict Withdrawal
  pub config : Option PayoutConfig
  pub commission_cache : Option CommissionCache
  pub payments : Dict Payment
  pub wallets : Dict Wallet
  pub transactions : List WalletTransaction
  pub pending_deliveries : Dict PendingDelivery
  pub matching : Dict MatchingState
  pub matching_ids : List ℕ
  pub cooldowns : List Cooldown
  pub ratings : Dict Rating
  pub disputes : Dict Dispute
  pub users : Dict User
  pub refresh_tokens : List RefreshToken
  pub sent : List Event

-- The exceptions of @nestjs/common that the handlers throw; `unavailable` is a failed call of the
-- payment provider.
pub data HttpError : Type 0 where
  bad_request not_found forbidden conflict unauthorized unavailable : HttpError

pub data Result (A : Type 0) : Type 0 where
  ok : A → Result A
  err : HttpError → Result A

abbrev pub Handler : Type 0 → Type 0
Handler A = Db → Result A × Db

abbrev pub ⊤ : Type 0
⊤ = Unit

module _ {A : Type 0} where
  abbrev pub pure : A → Handler A
  pure a s = (ok a, s)

  abbrev pub throw : HttpError → Handler A
  throw e s = (err e, s)

  abbrev pub gets : (Db → A) → Handler A
  gets f s = (ok (f s), s)

  -- `if (!document) throw …`
  abbrev pub some_or : Option A → HttpError → Handler A
  some_or none e = throw e
  some_or (some a) e = pure a

infixl 5 ◌>>=◌ ◌>>◌
abbrev pub ◌>>=◌ : {A B : Type 0} → Handler A → (A → Handler B) → Handler B
◌>>=◌ m f s = let (r, t) = m s in elim r [ ok a ↦ f a t | err e ↦ (err e, t) ]

abbrev pub ◌>>◌ : {A B : Type 0} → Handler A → Handler B → Handler B
m >> k = m >>= λ _. k

-- `if (!c) throw e`
abbrev pub require : Bool → HttpError → Handler ⊤
require c e s = (if c then ok tt else err e, s)

-- `if (c) { … }`
abbrev pub when : Bool → Handler ⊤ → Handler ⊤
when c m s = if c then m s else (ok tt, s)

abbrev pub modify : (Db → Db) → Handler ⊤
modify f s = (ok tt, f s)

abbrev pub send : Event → Handler ⊤
send e = modify λ s. record s { sent = s.sent ++ (e ∷ []) }

abbrev pub update_delivery : ℕ → (Delivery → Delivery) → Handler ⊤
update_delivery k f = modify λ s. record s { deliveries = update k f s.deliveries }

abbrev pub update_rider : ℕ → (Rider → Rider) → Handler ⊤
update_rider k f = modify λ s. record s { riders = update k f s.riders }

-- The PIN fields are declared `select: false`: a plain read of the document leaves them out.
abbrev pub without_pins : Delivery → Delivery
without_pins d = record d { pickup_pin = none; delivery_pin = none }

-- `findById(id).select('+pickupPin +deliveryPin')`, and a throw where there is no document
abbrev pub find_delivery_with_pins : ℕ → Handler Delivery
find_delivery_with_pins k = gets (λ s. lookup k s.deliveries) >>= λ o. some_or o HttpError.not_found

-- `findById(id)`, and a throw where there is no document
abbrev pub find_delivery : ℕ → Handler Delivery
find_delivery k = find_delivery_with_pins k >>= λ d. pure (without_pins d)

abbrev pub is_ok : {A : Type 0} → Result A → Bool
is_ok (ok _) = true
is_ok (err _) = false

-- A handler that threw before its first write.
abbrev pub Refused : {A : Type 0} → HttpError → Db → Result A × Db → Type 0
Refused e s r = (r.0 ≡ err e) × (r.1 ≡ s)

-- A handler that threw, whatever the error, and wrote nothing.
abbrev pub Untouched : {A : Type 0} → Db → Result A × Db → Type 0
Untouched s r = (is_ok r.0 ≡ false) × (r.1 ≡ s)

-- What a sequence comes to, once its first handler is known.
module _ {A B : Type 0} (m : Handler A) (k : A → Handler B) (s : Db) {t : Db} where
  pub bind-ok : {a : A} → m s ≡ (ok a, t) → (m >>= k) s ≡ k a t
  bind-ok e = ap (λ (p : Result A × Db). elim p.0 [ ok a ↦ k a p.1 | err x ↦ (err x, p.1) ]) e

  pub bind-err : {x : HttpError} → m s ≡ (err x, t) → (m >>= k) s ≡ (err x, t)
  bind-err e = ap (λ (p : Result A × Db). elim p.0 [ ok a ↦ k a p.1 | err x ↦ (err x, p.1) ]) e

-- A handler that keeps a property of the state, whether it throws or not.
abbrev pub Preserves : {A : Type 0} (P : Db → Type 0) → Handler A → Type 0
Preserves P m = (s : Db) → P s → P (m s).1

pub Preserves-bind :
    {A B : Type 0} (P : Db → Type 0) (m : Handler A) (f : A → Handler B)
    → Preserves P m
    → ((a : A) → Preserves P (f a))
    → Preserves P (m >>= f)
Preserves-bind {A = A} {B = B} P m f keep_m keep_f s a = go (m s) (keep_m s a)
  where
    go : (r : Result A × Db) → P r.1 → P (◌>>=◌ {A = A} {B = B} (λ _. r) f s).1
    go (ok b, t) h = keep_f b t h
    go (err e, t) h = h

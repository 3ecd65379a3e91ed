-- ===== src/Disputes/Requests.antt =====
-- apps/user-api/src/dispute/dispute.controller.ts and apps/admin-api/src/dispute/dispute.controller.ts:
-- the requests that write, and sequences of them.
use fastmotion_delivery.Base.{ℕ, Option, List, [], ◌∷◌}
use fastmotion_delivery.Model.{Db, Handler, ⊤}
use fastmotion_delivery.Disputes.Filing.{
  Complaint, create_dispute, add_dispute_message, update_dispute,
}
use fastmotion_delivery.Disputes.Support.{
  Decision, update_dispute_status, add_admin_message, assign_dispute,
}

-- The requests of customers about the disputes that are there.
pub data CustomerWord : Type 0 where
  message : (user id text : ℕ) (attachments : List ℕ) (now : ℕ) → CustomerWord
  change : (user id : ℕ) (description : Option ℕ) (attachments : List ℕ) → CustomerWord

unfoldable pub say : CustomerWord → Handler ⊤
say (CustomerWord.message user id text attachments now) =
    add_dispute_message user id text attachments now
say (CustomerWord.change user id description attachments) =
    update_dispute user id description attachments

-- Words of customers, one after the other.
unfoldable pub say_all : List CustomerWord → Db → Db
say_all [] s = s
say_all (w ∷ ws) s = say_all ws (say w s).1

pub data DisputeRequest : Type 0 where
  create : (user id dispute_id ticket : ℕ) → Complaint → (now : ℕ) → DisputeRequest
  customer : CustomerWord → DisputeRequest
  decide : (admin id text : ℕ) → Decision → (now : ℕ) → DisputeRequest
  answer : (admin id text : ℕ) (attachments : List ℕ) (now : ℕ) → DisputeRequest
  assign : (admin id now : ℕ) → DisputeRequest

unfoldable pub deal : DisputeRequest → Handler ⊤
deal (DisputeRequest.create user id dispute_id ticket c now) =
    create_dispute user id dispute_id ticket c now
deal (DisputeRequest.customer w) = say w
deal (DisputeRequest.decide admin id text v now) = update_dispute_status admin id text v now
deal (DisputeRequest.answer admin id text attachments now) =
    add_admin_message admin id text attachments now
deal (DisputeRequest.assign admin id now) = assign_dispute admin id now

-- The states that requests lead to from `s`.
pub data Deals (s : Db) : Db → Type 0 where
  here : Deals s s
  next : {t : Db} → Deals s t → (q : DisputeRequest) → Deals s (deal q t).1

-- ===== src/Payment/Request.antt =====
-- What the payment service is asked: by its controller, by the provider's webhooks and by the
-- refund listener.
use fastmotion_delivery.Base.{ℕ, Bool, List, [], ◌∷◌}
use fastmotion_delivery.Model.{Db, PaymentMethod, Handler, ⊤, pure, ◌>>◌}
use fastmotion_delivery.Payment.Initiate.{
  initiate_payment, fund_wallet, withdraw_from_wallet, get_wallet_balance, process_refund,
}
use fastmotion_delivery.Payment.Webhook.{
  payment_success, payment_failed, transfer_success, transfer_failed,
}

pub data PaymentRequest : Type 0 where
  initiate :
      (user id reference : ℕ)
      → PaymentMethod
      → (pickup pin now : ℕ) (answers : Bool) → PaymentRequest
  fund : (user amount reference : ℕ) → PaymentMethod → (answers : Bool) → PaymentRequest
  withdraw : (user amount reference : ℕ) → PaymentRequest
  show_balance : (user : ℕ) → PaymentRequest
  refund : (user id amount reference now : ℕ) → PaymentRequest
  paid : (reference pickup pin amount now : ℕ) → PaymentRequest
  not_paid : (reference : ℕ) → PaymentRequest
  transferred : (reference now : ℕ) → PaymentRequest
  not_transferred : (reference : ℕ) → PaymentRequest

unfoldable pub serve : PaymentRequest → Handler ⊤
serve (PaymentRequest.initiate user id reference method pickup pin now answers) =
    initiate_payment user id reference method pickup pin now answers
serve (PaymentRequest.fund user amount reference method answers) =
    fund_wallet user amount reference method answers
serve (PaymentRequest.withdraw user amount reference) = withdraw_from_wallet user amount reference
serve (PaymentRequest.show_balance user) = get_wallet_balance user >> pure tt
serve (PaymentRequest.refund user id amount reference now) =
    process_refund user id amount reference now
serve (PaymentRequest.paid reference pickup pin amount now) =
    payment_success reference pickup pin amount now
serve (PaymentRequest.not_paid reference) = payment_failed reference
serve (PaymentRequest.transferred reference now) = transfer_success reference now
serve (PaymentRequest.not_transferred reference) = transfer_failed reference

-- Requests one after the other; a failed one leaves what it wrote.
unfoldable pub serve_all : List PaymentRequest → Db → Db
serve_all [] s = s
serve_all (r ∷ rs) s = serve_all rs (serve r s).1

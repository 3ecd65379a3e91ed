-- ===== src/Tests/PaymentRuns.antt =====
-- The theorems on payments and wallets at concrete states.
use fastmotion_delivery.Base.{◌≡◌, refl, true, none, some, List, [], ◌∷◌, arith}
use fastmotion_delivery.Base.Int.{◌-ℤ◌}
use fastmotion_delivery.Base.Dict.{lookup}
use fastmotion_delivery.Model.{
  Db, Delivery, DeliveryStatus, PaymentStatus, PaymentMethod, Purpose, ok,
}
use fastmotion_delivery.Payment.{
  PaymentRequest, serve_all, payment_success, find_payment_by_delivery, compute_wallet_balance,
  sum_type,
}
use fastmotion_delivery.Payment.Books.Requests.{Kept}
use fastmotion_delivery.Payment.Books.Invariant.{serve_all-IsKept}
use fastmotion_delivery.Payment.Outcomes.{CanPay, success_repeated}
use fastmotion_delivery.Tests.Data.{
  empty_db, delivery_doc, payment_doc, with_payment, free_delivery,
}

empty-Kept : Kept empty_db
unfolding lookup compute_wallet_balance sum_type ◌-ℤ◌
empty-Kept = record { balances = λ u w e. ground arith; absent = λ u e. refl }

-- A wallet is funded with 3000 through the provider, whose report comes twice, and half is refunded.
abbrev requests : List PaymentRequest
requests =
    PaymentRequest.fund 30 3000 11 PaymentMethod.card true
    ∷ PaymentRequest.paid 11 1111 2222 3000 20
    ∷ PaymentRequest.paid 11 1111 2222 3000 21
    ∷ PaymentRequest.show_balance 30
    ∷ PaymentRequest.refund 30 5 1500 12 22
    ∷ []

serve_all-IsKept_example : Kept (serve_all requests empty_db)
serve_all-IsKept_example = serve_all-IsKept requests empty_db empty-Kept

abbrev open_db : Db
open_db =
    with_payment (payment_doc (some 5) PaymentStatus.pending Purpose.delivery_payment) free_delivery

success_repeated_example :
    let t = (payment_success 11 1111 2222 1000 20 open_db).1 in
    payment_success 11 3333 4444 1000 21 t ≡ (ok tt, t)
success_repeated_example = success_repeated 11 1111 2222 1000 20 3333 4444 1000 21 open_db

open-CanPay : CanPay 30 5 free_delivery open_db
unfolding lookup find_payment_by_delivery
open-CanPay = (refl, refl, refl, refl, refl)

open-lookup : lookup 5 open_db.deliveries ≡ some free_delivery
unfolding lookup
open-lookup = refl

abbrev withdrawing_db : Db
withdrawing_db =
    with_payment (payment_doc none PaymentStatus.pending Purpose.wallet_withdrawal) free_delivery

abbrev delivered_delivery : Delivery
delivered_delivery = delivery_doc DeliveryStatus.delivered (some 7) PaymentStatus.paid

abbrev delivered_db : Db
delivered_db =
    with_payment (payment_doc (some 5) PaymentStatus.paid Purpose.delivery_payment)
      delivered_delivery

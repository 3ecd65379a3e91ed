-- ===== src/Payment/Books/Invariant.antt =====
-- The wallets' books under any requests, and `getWalletBalance`.
use fastmotion_delivery.Base.{ℕ, ◌≡◌, some, List, [], ◌∷◌, arith}
use fastmotion_delivery.Base.Dict.{lookup}
use fastmotion_delivery.Model.{Db, Wallet, ok}
use fastmotion_delivery.Payment.Wallets.{get_or_create_wallet}
use fastmotion_delivery.Payment.Initiate.{get_wallet_balance}
use fastmotion_delivery.Payment.Request.{PaymentRequest, serve, serve_all}
use fastmotion_delivery.Payment.Books.Requests.{
  Kept, get_or_create-lem, payment_success-Kept, transfer_success-Kept, payment_failed-Kept,
  transfer_failed-Kept, fund_wallet-Kept, withdraw_from_wallet-Kept, process_refund-Kept,
  initiate_payment-Kept,
}

-- While the books are kept, asking for the balance changes no wallet, and it shows the deposit
-- balance of the wallet.
pub shown_balance :
    (user : ℕ) (s : Db)
    → Kept s
    → let r = get_wallet_balance user s in
      (w : Wallet) × (lookup user r.1.wallets ≡ some w)
      × (r.0 ≡ ok w.deposit_balance)
      × (r.1 ≡ (get_or_create_wallet user s).1)
unfolding get_wallet_balance
shown_balance user s k =
    let (w, found, there, kept) = get_or_create-lem user s k in
    let same = kept.balances user w there in (w, ground arith, ground arith, ground arith)

serve-Kept : (r : PaymentRequest) (s : Db) → Kept s → Kept (serve r s).1
unfolding serve
serve-Kept (PaymentRequest.initiate u i r m p q n a) s k = initiate_payment-Kept u i r m p q n a s k
serve-Kept (PaymentRequest.fund u a r m b) s k = fund_wallet-Kept u a r m b s k
serve-Kept (PaymentRequest.withdraw u a r) s k = withdraw_from_wallet-Kept u a r s k
serve-Kept (PaymentRequest.show_balance u) s k =
    let (w, found, there, kept) = get_or_create-lem u s k in
    let (v, e, f, g) = shown_balance u s k in ground arith
serve-Kept (PaymentRequest.refund u i a r n) s k = process_refund-Kept u i a r n s k
serve-Kept (PaymentRequest.paid r p q a n) s k = payment_success-Kept r p q a n s k
serve-Kept (PaymentRequest.not_paid r) s k = payment_failed-Kept r s k
serve-Kept (PaymentRequest.transferred r n) s k = transfer_success-Kept r n s k
serve-Kept (PaymentRequest.not_transferred r) s k = transfer_failed-Kept r s k

-- Every request, whether it succeeds or fails, leaves every wallet with the deposit balance that the
-- user's transactions add up to.
pub serve_all-IsKept : (rs : List PaymentRequest) (s : Db) → Kept s → Kept (serve_all rs s)
unfolding serve_all
serve_all-IsKept [] s k = k
serve_all-IsKept (r ∷ rs) s k = serve_all-IsKept rs (serve r s).1 (serve-Kept r s k)

-- ===== src/Payment/Books/Requests.antt =====
-- The wallets' books under each request of apps/user-api/src/payment/payment.service.ts.
use fastmotion_delivery.Base.{
  ℕ, ◌≡◌, refl, sym, ap, subst, ◌∙◌, inl, inr, Bool, some, [], ◌∷◌, ◌++◌, arith, Option-cases,
}
use fastmotion_delivery.Base.Int.{pos, ◌+ℤ◌, ◌-ℤ◌}
use fastmotion_delivery.Base.Dict.{lookup, update, lookup-append_new}
use fastmotion_delivery.Model.{
  Db, Delivery, PaymentMethod, PaymentStatus, Purpose, Wallet, TransactionCategory, Result, ok,
  without_pins,
}
use fastmotion_delivery.Payment.Wallets.{
  get_or_create_wallet, process_wallet_payment, process_wallet_funding, credit_refund, debit_record,
  credit_record, debited, funded, new_wallet, find_payment_by_delivery,
}
use fastmotion_delivery.Payment.Initiate.{
  initiate_payment, initiate_stored, pay_from_wallet, fund_wallet, withdraw_from_wallet,
  process_refund, new_payment,
}
use fastmotion_delivery.Payment.Webhook.{
  payment_success, apply_payment, settled_payment, fund_once, settle_delivery, confirm_delivery,
  payment_failed, transfer_success, transfer_failed,
}
use fastmotion_delivery.Payment.Books.Balance.{
  IsKept, IsKept-create, IsKept-record, balance-debit, balance-credit,
}

abbrev pub Kept : Db → Type 0
Kept s = IsKept s.wallets s.transactions

abbrev with_wallet : ℕ → Db → Db
with_wallet user s = record s { wallets = s.wallets ++ ((user, new_wallet) ∷ []) }

pub get_or_create-lem :
    (user : ℕ) (s : Db)
    → let r = get_or_create_wallet user s in
      Kept s → (w : Wallet) × (r.0 ≡ ok w) × (lookup user r.1.wallets ≡ some w) × Kept r.1
unfolding get_or_create_wallet
get_or_create-lem user s k = elim (Option-cases (lookup user s.wallets)) [
  | inl e ↦
      let r : get_or_create_wallet user s ≡ (ok new_wallet, with_wallet user s) = ground arith in
      subst
        (λ (x : Result Wallet × Db).
          (w : Wallet) × (x.0 ≡ ok w) × (lookup user x.1.wallets ≡ some w) × Kept x.1)
        (sym r)
        (
          new_wallet,
          refl,
          lookup-append_new user s.wallets new_wallet e,
          IsKept-create user s.wallets s.transactions e k,
        )
  | inr (w, e) ↦
      let r : get_or_create_wallet user s ≡ (ok w, s) = ground arith in
      subst
        (λ (x : Result Wallet × Db).
          (w : Wallet) × (x.0 ≡ ok w) × (lookup user x.1.wallets ≡ some w) × Kept x.1)
        (sym r) (w, refl, e, k)
]

process_wallet_payment-Kept :
    (user : ℕ) (w w₀ : Wallet) (amount : ℕ) (c : TransactionCategory) (s : Db)
    → lookup user s.wallets ≡ some w₀
    → Kept s
    → Kept (process_wallet_payment user w amount c s).1
unfolding process_wallet_payment
process_wallet_payment-Kept user w w₀ amount c s e k =
    let t = debit_record user amount c w in
    IsKept-record (debited amount) t s.wallets s.transactions e
      (λ v h. ap (λ z. z -ℤ pos amount) h ∙ sym (balance-debit s.transactions t refl refl)) k

credit_refund-Kept :
    (user : ℕ) (w w₀ : Wallet) (amount reference : ℕ) (s : Db)
    → lookup user s.wallets ≡ some w₀
    → Kept s
    → Kept (credit_refund user w amount reference s).1
unfolding credit_refund
credit_refund-Kept user w w₀ amount reference s e k =
    let t = credit_record user amount TransactionCategory.refund reference w in
    IsKept-record (funded amount) t s.wallets s.transactions e
      (λ v h. ap (λ z. z +ℤ pos amount) h ∙ sym (balance-credit s.transactions t refl refl)) k

process_wallet_funding-Kept :
    (user amount reference : ℕ) (s : Db)
    → Kept s
    → Kept (process_wallet_funding user amount reference s).1
unfolding process_wallet_funding
process_wallet_funding-Kept user amount reference s k =
    elim (Option-cases (lookup user s.wallets)) [
      | inl e ↦ rw e k
      | inr (w, e) ↦
          let t = credit_record user amount TransactionCategory.deposit reference w in
          rw e (
            IsKept-record (funded amount) t s.wallets s.transactions e
              (λ v h. ap (λ z. z +ℤ pos amount) h ∙ sym (balance-credit s.transactions t refl refl))
              k)
    ]

fund_once-Kept :
    (user amount reference : ℕ) (s : Db) → Kept s → Kept (fund_once user amount reference s).1
unfolding fund_once
fund_once-Kept user amount reference s k =
    let (w, found, there, kept) = get_or_create-lem user s k in
    ground (
      arith,
      process_wallet_funding-Kept user amount reference (get_or_create_wallet user s).1 kept,
    )

pub payment_success-Kept :
    (reference pickup pin amount now : ℕ) (s : Db)
    → Kept s
    → Kept (payment_success reference pickup pin amount now s).1
unfolding payment_success apply_payment settle_delivery confirm_delivery
payment_success-Kept reference pickup pin amount now s k =
    elim (Option-cases (lookup reference s.payments)) [
      | inl e ↦ ground arith
      | inr (p, e) ↦ ground (
        arith,
        fund_once-Kept p.user p.amount reference
            (record s { payments = update reference (settled_payment now) s.payments }),
      )
    ]

pub transfer_success-Kept :
    (reference now : ℕ) (s : Db) → Kept s → Kept (transfer_success reference now s).1
unfolding transfer_success
transfer_success-Kept reference now s k = elim (Option-cases (lookup reference s.payments)) [
  | inl e ↦ ground arith
  | inr (p, e) ↦ elim (Option-cases (lookup p.user s.wallets)) [
    | inl none_there ↦ ground arith
    | inr (w, there) ↦ ground (
      arith,
      process_wallet_payment-Kept p.user w w p.amount TransactionCategory.withdrawal
          (record s { payments = update reference (settled_payment now) s.payments }),
    )
  ]
]

pub payment_failed-Kept : (reference : ℕ) (s : Db) → Kept s → Kept (payment_failed reference s).1
unfolding payment_failed
payment_failed-Kept reference s k = ground arith

pub transfer_failed-Kept : (reference : ℕ) (s : Db) → Kept s → Kept (transfer_failed reference s).1
unfolding transfer_failed
transfer_failed-Kept reference s k = ground arith

pub fund_wallet-Kept :
    (user amount reference : ℕ) (method : PaymentMethod) (answers : Bool) (s : Db)
    → Kept s
    → Kept (fund_wallet user amount reference method answers s).1
unfolding fund_wallet
fund_wallet-Kept user amount reference method answers s k =
    let (w, found, there, kept) = get_or_create-lem user s k in ground arith

pub withdraw_from_wallet-Kept :
    (user amount reference : ℕ) (s : Db)
    → Kept s
    → Kept (withdraw_from_wallet user amount reference s).1
unfolding withdraw_from_wallet
withdraw_from_wallet-Kept user amount reference s k = ground arith

pub process_refund-Kept :
    (user id amount reference now : ℕ) (s : Db)
    → Kept s
    → Kept (process_refund user id amount reference now s).1
unfolding process_refund
process_refund-Kept user id amount reference now s k =
    let (w, found, there, kept) = get_or_create-lem user s k in
    let t : Db = (get_or_create_wallet user s).1 in
    elim (Option-cases (find_payment_by_delivery id t.payments)) [
      | inl e ↦ ground arith
      | inr ((original, p), e) ↦
          ground (arith, credit_refund-Kept user w w amount original t there kept)
    ]

pay_from_wallet-Kept :
    (user id reference pickup pin now : ℕ) (d : Delivery) (amount : ℕ) (s : Db)
    → Kept s
    → Kept (pay_from_wallet user id reference pickup pin now d amount s).1
unfolding pay_from_wallet
pay_from_wallet-Kept user id reference pickup pin now d amount s k =
    let (w, found, there, kept) = get_or_create-lem user s k in
    let t : Db = (get_or_create_wallet user s).1 in
    let p =
      new_payment user (some id) amount PaymentMethod.wallet PaymentStatus.paid (some now)
        Purpose.delivery_payment in
    ground (
      arith,
      process_wallet_payment-Kept user w w amount TransactionCategory.delivery_fee
          (record t { payments = t.payments ++ ((reference, p) ∷ []) }) there kept,
    )

pub initiate_payment-Kept :
    (user id reference : ℕ) (method : PaymentMethod) (pickup pin now : ℕ) (answers : Bool) (s : Db)
    → Kept s
    → Kept (initiate_payment user id reference method pickup pin now answers s).1
unfolding initiate_payment initiate_stored
initiate_payment-Kept user id reference method pickup pin now answers s k =
    elim (Option-cases (lookup id s.deliveries)) [
      | inl e ↦ ground arith
      | inr (d, e) ↦ ground (
        arith,
        pay_from_wallet-Kept user id reference pickup pin now (without_pins d) d.total_price s k,
      )
    ]

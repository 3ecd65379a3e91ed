-- ===== src/Model/Payments.antt =====
-- libs/database/src/schemas: payment.schema.ts, wallet.schema.ts and walletTransaction.schema.ts.
use fastmotion_delivery.Base.{ℕ, Bool, Option}
use fastmotion_delivery.Base.Int.{ℤ}
use fastmotion_delivery.Model.Status.{PaymentStatus, DeliveryType}

pub data PaymentMethod : Type 0 where
  wallet card bank_transfer : PaymentMethod

-- The texts of `description` and `metadata.type` that the handlers compare.
pub data Purpose : Type 0 where
  delivery_payment wallet_funding wallet_withdrawal refund_credit : Purpose

-- A payment, by its reference.
pub record Payment : Type 0 where
  pub user : ℕ
  pub delivery_request : Option ℕ
  pub amount : ℕ
  pub payment_method : PaymentMethod
  pub status : PaymentStatus
  pub paid_at : Option ℕ
  pub purpose : Purpose
  pub is_refund : Bool
  pub original_payment : Option ℕ
  pub refunded_amount : ℕ
  pub refunded_at : Option ℕ

-- A wallet, by its user; `$inc` may take a balance below zero.
pub record Wallet : Type 0 where
  pub deposit_balance : ℤ
  pub withdrawable_balance : ℤ
  pub total_balance : ℤ
  pub is_active : Bool
  pub is_locked : Bool
  pub total_deposited : ℤ
  pub total_withdrawn : ℤ

pub data TransactionType : Type 0 where
  debit credit : TransactionType

pub data TransactionCategory : Type 0 where
  deposit withdrawal refund delivery_fee : TransactionCategory
  bakery_order_deposit adjustment : TransactionCategory

-- Which balance of a wallet a transaction is about.
pub data BalanceType : Type 0 where
  deposit withdrawable both : BalanceType

pub data TransactionStatus : Type 0 where
  pending completed failed pending_review reversed : TransactionStatus

-- A transaction; its id is its place in the collection, and `wallet` is the user of its wallet.
pub record WalletTransaction : Type 0 where
  pub user : ℕ
  pub wallet : ℕ
  pub type : TransactionType
  pub category : TransactionCategory
  pub balance_type : BalanceType
  pub status : TransactionStatus
  pub amount : ℕ
  pub deposit_balance_before : ℤ
  pub deposit_balance_after : ℤ
  pub withdrawable_balance_before : ℤ
  pub withdrawable_balance_after : ℤ
  pub total_balance_before : ℤ
  pub total_balance_after : ℤ
  pub reference : Option ℕ
  pub reversed_at : Option ℕ
  pub reversal_of : Option ℕ

-- A quick delivery that waits in Redis for its card or bank payment.
pub record PendingDelivery : Type 0 where
  pub user_id : ℕ
  pub delivery_type : DeliveryType
  pub total_price : ℕ
  pub service_fee : ℕ
  pub time_multiplier : Option ℕ

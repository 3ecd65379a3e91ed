-- ===== src/Tests/Data.antt =====
-- A small state: a rider, a second one, two deliveries, a customer with a wallet, and a search.
use fastmotion_delivery.Base.{ℕ, true, false, Option, none, some, [], ◌∷◌}
use fastmotion_delivery.Base.Int.{pos}
use fastmotion_delivery.Model.{
  Db, Delivery, DeliveryStatus, DeliveryType, PaymentStatus, Rider, RiderStatus, VerificationStatus,
  Earning, EarningsStatus, EarningsType, Payment, PaymentMethod, Purpose, Wallet, MatchingState,
  MatchingStatus, RiderAccount,
}

abbrev pub account_doc : RiderAccount
account_doc = record {
  email = 101 ∷ 64 ∷ 120 ∷ [];
  phone = 43 ∷ 50 ∷ 51 ∷ 52 ∷ 56 ∷ [];
  password_hash = 900;
  must_change_password = false;
  enforce_device_binding = true;
  bound_device_id = none;
  bound_device_model = none;
  device_bound_at = none;
  is_vehicle_bound = false;
  bound_vehicle_id = none;
  fcm_token = none;
  reset_password_otp = none;
  reset_password_otp_expiry = none;
  last_login_date = none;
  suspension_reason = none;
  suspended_at = none;
  suspended_by = none;
}

abbrev pub rider_doc : (count : ℕ) (wallet : ℕ) → Rider
rider_doc count wallet = record {
  status = RiderStatus.available;
  verification_status = VerificationStatus.verified;
  is_online = true;
  is_active = true;
  is_suspended = false;
  total_deliveries = 4;
  total_earnings = 1000;
  wallet_balance = pos wallet;
  bank_name = some 1;
  bank_account_number = some 2;
  max_concurrent_deliveries = 3;
  current_delivery_count = pos count;
  average_rating = 0;
  total_ratings = 0;
  account = account_doc;
}

abbrev pub delivery_doc : DeliveryStatus → Option ℕ → PaymentStatus → Delivery
delivery_doc status rider payment = record {
  customer = 30;
  rider = rider;
  delivery_type = DeliveryType.quick;
  status = status;
  total_price = 1000;
  service_fee = 50;
  time_multiplier = none;
  payment_status = payment;
  scheduled_pickup_time = none;
  pickup_pin = some 1234;
  delivery_pin = some 5678;
  pickup_pin_verified = false;
  delivery_pin_verified = false;
  pickup_pin_overridden = false;
  delivery_pin_overridden = false;
  rider_accepted_at = none;
  rider_assigned_at = none;
  arrived_at_pickup_at = none;
  picked_up_at = none;
  arrived_at_dropoff_at = none;
  delivered_at = none;
  completed_at = none;
  cancelled_at = none;
  payment_requested_at = none;
  can_reschedule = true;
  payment_required_at_pickup = false;
  reschedule_count = 0;
  is_rated = false;
  has_dispute = false;
}

abbrev pub earning_doc : ℕ → Earning
earning_doc amount = record {
  rider = 7;
  delivery_request = some 99;
  type = EarningsType.delivery_fee;
  amount = amount;
  status = EarningsStatus.available;
  withdrawn_at = none;
  withdrawal_reference = none;
}

abbrev pub empty_db : Db
empty_db = record {
  deliveries = [];
  riders = [];
  earnings = [];
  platform_earnings = [];
  withdrawals = [];
  config = none;
  commission_cache = none;
  payments = [];
  wallets = [];
  transactions = [];
  pending_deliveries = [];
  matching = [];
  matching_ids = [];
  cooldowns = [];
  ratings = [];
  disputes = [];
  users = [];
  refresh_tokens = [];
  sent = [];
}

-- One delivery, of id 5, and two riders, of ids 7 and 8.
abbrev pub with_delivery : Delivery → Db
with_delivery d = record empty_db {
  deliveries = (5, d) ∷ [];
  riders = (7, rider_doc 1 1000) ∷ (8, rider_doc 0 0) ∷ [];
}

abbrev pub free_delivery : Delivery
free_delivery = delivery_doc DeliveryStatus.searching_rider none PaymentStatus.pending

abbrev pub taken_delivery : DeliveryStatus → PaymentStatus → Delivery
taken_delivery status payment = delivery_doc status (some 7) payment

-- A rider with two earnings, which are in the wallet.
abbrev pub earned_db : Db
earned_db = record empty_db {
  deliveries = (5, taken_delivery DeliveryStatus.delivered PaymentStatus.paid) ∷ [];
  riders = (7, rider_doc 1 1000) ∷ [];
  earnings = (1, earning_doc 400) ∷ (2, earning_doc 600) ∷ [];
}

abbrev pub wallet_doc : ℕ → Wallet
wallet_doc balance = record {
  deposit_balance = pos balance;
  withdrawable_balance = pos 0;
  total_balance = pos balance;
  is_active = true;
  is_locked = false;
  total_deposited = pos balance;
  total_withdrawn = pos 0;
}

abbrev pub payment_doc : Option ℕ → PaymentStatus → Purpose → Payment
payment_doc delivery status purpose = record {
  user = 30;
  delivery_request = delivery;
  amount = 1000;
  payment_method = PaymentMethod.card;
  status = status;
  paid_at = none;
  purpose = purpose;
  is_refund = false;
  original_payment = none;
  refunded_amount = 0;
  refunded_at = none;
}

-- The customer 30 with 3000 in the wallet, and a payment of reference 11.
abbrev pub with_payment : Payment → Delivery → Db
with_payment p d = record empty_db {
  deliveries = (5, d) ∷ [];
  payments = (11, p) ∷ [];
  wallets = (30, wallet_doc 3000) ∷ [];
}

abbrev pub search_doc : (index : ℕ) → MatchingState
search_doc index = record {
  rider_ids = 7 ∷ 8 ∷ [];
  rider_index = index;
  customer_id = 30;
  sent_at = 0;
  status = MatchingStatus.active;
  expires_at = 3_600_000;
}

-- A search for the delivery 5.
abbrev pub with_search : (index : ℕ) → PaymentStatus → Db
with_search index payment = record empty_db {
  deliveries = (5, delivery_doc DeliveryStatus.searching_rider none payment) ∷ [];
  riders = (7, rider_doc 1 1000) ∷ (8, rider_doc 0 0) ∷ [];
  matching = (5, search_doc index) ∷ [];
  matching_ids = 5 ∷ [];
}

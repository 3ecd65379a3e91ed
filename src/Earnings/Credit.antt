-- ===== src/Earnings/Credit.antt =====
-- `creditDeliveryEarnings`, which the PIN check of a handover calls.
use fastmotion_delivery.Base.{
  ℕ, ◌+◌, Bool, true, false, ◌&&◌, Option, none, some, [], ◌∷◌, ◌++◌, ◌==◌, if◌then◌else◌,
}
use fastmotion_delivery.Base.Int.{pos, ◌+ℤ◌, ◌-ℤ◌}
use fastmotion_delivery.Base.Dict.{Dict, lookup}
use fastmotion_delivery.Model.{
  Delivery, Rider, Earning, EarningsStatus, EarningsType, PlatformEarning, Handler, ⊤, pure, modify,
  update_rider, ◌>>◌,
}
use fastmotion_delivery.Earnings.Payout.{compute_rider_payout, config_rate, config_min}

abbrev pub is_delivery_fee : EarningsType → Bool
is_delivery_fee EarningsType.delivery_fee = true
is_delivery_fee _ = false

abbrev pub is_for : Option ℕ → ℕ → Bool
is_for none k = false
is_for (some j) k = j == k

-- `earningsModel.findOne({ rider, deliveryRequest, type: DELIVERY_FEE })`
unfoldable pub is_credited : (rider delivery : ℕ) → Dict Earning → Bool
is_credited rider delivery [] = false
is_credited rider delivery ((i, e) ∷ es) =
    if e.rider == rider && (is_for e.delivery_request delivery && is_delivery_fee e.type)
    then true
    else is_credited rider delivery es

abbrev pub fee_earning : (rider delivery amount : ℕ) → Earning
fee_earning rider delivery amount = record {
  rider = rider;
  delivery_request = some delivery;
  type = EarningsType.delivery_fee;
  amount = amount;
  status = EarningsStatus.available;
  withdrawn_at = none;
  withdrawal_reference = none;
}

abbrev pub commission_earning : (rider delivery payout : ℕ) → Delivery → PlatformEarning
commission_earning rider delivery payout d = record {
  delivery_request = delivery;
  rider = rider;
  customer = d.customer;
  total_delivery_price = d.total_price;
  rider_payout = payout;
  platform_commission = pos d.total_price -ℤ pos payout;
  service_fee = d.service_fee;
}

abbrev pub paid_out : ℕ → Rider → Rider
paid_out payout r = record r {
  total_earnings = r.total_earnings + payout;
  wallet_balance = r.wallet_balance +ℤ pos payout;
}

-- The writes of a credit. `new_id` is the id of the earning, `new Types.ObjectId()`.
unfoldable pub credit_payout : (rider delivery new_id payout : ℕ) → Delivery → Handler ⊤
credit_payout rider delivery new_id payout d = do
  modify
      λ s. record s { earnings = s.earnings ++ ((new_id, fee_earning rider delivery payout) ∷ []) }
  update_rider rider (paid_out payout)
  modify λ s. record s {
    platform_earnings = s.platform_earnings ++ (commission_earning rider delivery payout d ∷ []);
  }

-- `creditDeliveryEarnings`; it returns early where there is nothing to credit.
unfoldable pub credit_delivery_earnings : (rider delivery new_id : ℕ) → Handler ⊤
credit_delivery_earnings rider delivery new_id s = elim (lookup delivery s.deliveries) [
  | none ↦ pure tt s
  | some d ↦
      let payout =
        compute_rider_payout d.total_price (config_rate 7000 s.config) (config_min s.config) in
      if is_credited rider delivery s.earnings
      then pure tt s
      else credit_payout rider delivery new_id payout d s
]

-- ===== src/Rider/Counters.antt =====
-- What the end of a delivery does to the rider's document: the counters and the wallet.
use fastmotion_delivery.Base.{
  ℕ, ◌+◌, ◌≡◌, refl, true, false, some, arith, inl, inr, ◌==◌, Bool-cases, leb, if◌then◌else◌, ◌∙◌,
  ap, [], ◌∷◌, ◌++◌,
}
use fastmotion_delivery.Base.Int.{ℤ, pos, ◌+ℤ◌, ◌-ℤ◌, int_laws}
use fastmotion_delivery.Base.Dict.{lookup, lookup-update_self, count, update}
use fastmotion_delivery.Model.{Db, DeliveryStatus, Delivery, Rider, Event, ok, is_ok}
use fastmotion_delivery.Earnings.{
  credit_delivery_earnings, credit_payout, is_credited, compute_rider_payout, config_rate,
  config_min, paid_out,
}
use fastmotion_delivery.Rider.Accept.{is_rider}
use fastmotion_delivery.Rider.Progress.{
  delivered_one, made_available, settle_rider, update_delivery_status, counts_active, moved_to,
}
use fastmotion_delivery.Rider.Pins.{verify_delivery_pin, free_rider, handed_over, counts_open}
use fastmotion_delivery.Rider.Handover.{CanHandOver, handover_delivers}
use DeliveryStatus.{delivered, completed}

-- One delivery less is under way and one more is done; the money is as before.
abbrev pub Counted : Rider → Rider → Type 0
Counted w w' =
    (w'.current_delivery_count ≡ w.current_delivery_count -ℤ pos 1)
    × (w'.total_deliveries ≡ w.total_deliveries + 1)
    × (w'.wallet_balance ≡ w.wallet_balance)
    × (w'.total_earnings ≡ w.total_earnings)

abbrev pub Holds : (Rider → Type 0) → ℕ → Db → Type 0
Holds P rider t = (w' : Rider) × (lookup rider t.riders ≡ some w') × P w'

free_rider-Counted :
    (rider id : ℕ) (s : Db) (w : Rider)
    → lookup rider s.riders ≡ some w
    → Holds (Counted w) rider (free_rider rider id s).1
unfolding free_rider
free_rider-Counted rider id s w e =
    let once = lookup-update_self rider delivered_one s.riders e in
    let twice =
      lookup-update_self rider made_available (update rider delivered_one s.riders) once in
    elim (Bool-cases (count (counts_open rider id) s.deliveries == 0)) [
      | inl none_open ↦
          (made_available (delivered_one w), ground (arith, twice), (refl, refl, refl, refl))
      | inr some_open ↦ (delivered_one w, ground (arith, once), (refl, refl, refl, refl))
    ]

settle_rider-Counted :
    (rider : ℕ) (s : Db) (w : Rider)
    → lookup rider s.riders ≡ some w
    → Holds (Counted w) rider (settle_rider rider s).1
unfolding settle_rider
settle_rider-Counted rider s w e =
    let once = lookup-update_self rider delivered_one s.riders e in
    let twice =
      lookup-update_self rider made_available (update rider delivered_one s.riders) once in
    elim (Bool-cases (leb (count (counts_active rider) s.deliveries) 1)) [
      | inl few ↦
          (made_available (delivered_one w), ground (arith, twice), (refl, refl, refl, refl))
      | inr many ↦ (delivered_one w, ground (arith, once), (refl, refl, refl, refl))
    ]

free_rider-rest :
    (rider id : ℕ) (s : Db)
    → let t = (free_rider rider id s).1 in
      ((free_rider rider id s).0 ≡ ok tt)
      × (t.deliveries ≡ s.deliveries)
      × (t.earnings ≡ s.earnings)
      × (t.config ≡ s.config)
unfolding free_rider
free_rider-rest rider id s = ground arith

credit-ok : (rider id new_id : ℕ) (s : Db) → (credit_delivery_earnings rider id new_id s).0 ≡ ok tt
unfolding credit_delivery_earnings credit_payout
credit-ok rider id new_id s = ground arith

-- The payout of a delivery under the active configuration.
abbrev pub payout_of : Db → Delivery → ℕ
payout_of s d = compute_rider_payout d.total_price (config_rate 7000 s.config) (config_min s.config)

credit-riders :
    (rider id new_id : ℕ) (s : Db) (d : Delivery) (w : Rider)
    → lookup id s.deliveries ≡ some d
    → lookup rider s.riders ≡ some w
    → lookup rider (credit_delivery_earnings rider id new_id s).1.riders
      ≡ some (if is_credited rider id s.earnings then w else paid_out (payout_of s d) w)
unfolding credit_delivery_earnings credit_payout
credit-riders rider id new_id s d w ed ew =
    ground (arith, lookup-update_self rider (paid_out (payout_of s d)) s.riders ew)

abbrev handed : (id now : ℕ) → Db → Db
handed id now s = record s { deliveries = update id (handed_over now) s.deliveries }

handover-riders :
    (rider id pin now new_id : ℕ) (s : Db) (d : Delivery)
    → lookup id s.deliveries ≡ some d
    → CanHandOver rider pin d
    → (verify_delivery_pin rider id pin now new_id s).1.riders
      ≡ (credit_delivery_earnings rider id new_id
          (free_rider rider id (handed id now s)).1).1.riders
unfolding verify_delivery_pin
handover-riders rider id pin now new_id s d e can = ground (
  arith,
  free_rider-rest rider id (handed id now s),
  credit-ok rider id new_id (free_rider rider id (handed id now s)).1,
)

-- One delivery less is under way and one more is done, and the payout is in the wallet and in the
-- lifetime earnings.
abbrev pub Earned : ℕ → Rider → Rider → Type 0
Earned payout w w' =
    (w'.current_delivery_count ≡ w.current_delivery_count -ℤ pos 1)
    × (w'.total_deliveries ≡ w.total_deliveries + 1)
    × (w'.wallet_balance ≡ w.wallet_balance +ℤ pos payout)
    × (w'.total_earnings ≡ w.total_earnings + payout)

module _ (rider id pin now new_id : ℕ) (s : Db) (d : Delivery) (w : Rider)
    (found : lookup id s.deliveries ≡ some d) (can : CanHandOver rider pin d)
    (known : lookup rider s.riders ≡ some w) where
  handover-found :
      lookup id (free_rider rider id (handed id now s)).1.deliveries ≡ some (handed_over now d)
  handover-found = ground (
    arith,
    free_rider-rest rider id (handed id now s),
    lookup-update_self id (handed_over now) s.deliveries found,
  )

  -- A handover with the right PIN, of a delivery that the rider was not credited for before, takes it
  -- off the rider's count, adds it to the deliveries done and pays the payout once.
  pub handover_pays :
      is_credited rider id s.earnings ≡ false
      → Holds (Earned (payout_of s d) w) rider (verify_delivery_pin rider id pin now new_id s).1
  handover_pays fresh =
      let u = (free_rider rider id (handed id now s)).1 in
      let (w1, e1, counted) = free_rider-Counted rider id (handed id now s) w known in
      (
        paid_out (payout_of s d) w1,
        ground (
          arith,
          handover-riders rider id pin now new_id s d found can,
          credit-riders rider id new_id u (handed_over now d) w1 handover-found e1,
          free_rider-rest rider id (handed id now s),
        ),
        ground (arith, counted),
      )

  handover-counts :
      (w' : Rider) × (lookup rider (verify_delivery_pin rider id pin now new_id s).1.riders
        ≡ some w')
      × (w'.current_delivery_count ≡ w.current_delivery_count -ℤ pos 1)
      × (w'.total_deliveries ≡ w.total_deliveries + 1)
  handover-counts =
      let u = (free_rider rider id (handed id now s)).1 in
      let (w1, e1, counted) = free_rider-Counted rider id (handed id now s) w known in
      let paid = paid_out (payout_of u (handed_over now d)) w1 in
      (
        (if is_credited rider id u.earnings then w1 else paid),
        handover-eq w1 e1,
        ground (arith, counted),
        ground (arith, counted),
      )
    where
      handover-eq :
          (w1 : Rider)
          → lookup rider (free_rider rider id (handed id now s)).1.riders ≡ some w1
          → lookup rider (verify_delivery_pin rider id pin now new_id s).1.riders
            ≡ some (
                if is_credited rider id (free_rider rider id (handed id now s)).1.earnings
                then w1
                else paid_out
                    (payout_of (free_rider rider id (handed id now s)).1 (handed_over now d))
                    w1)
      handover-eq w1 e1 =
          ap (lookup rider) (handover-riders rider id pin now new_id s d found can)
          ∙ credit-riders rider id new_id (free_rider rider id (handed id now s)).1
              (handed_over now d) w1 handover-found e1

settle_rider-ok : (rider : ℕ) (s : Db) → (settle_rider rider s).0 ≡ ok tt
unfolding settle_rider
settle_rider-ok rider s = ground arith

-- A rider may complete a delivered delivery, and that counts it once more.
completing-Counted :
    (rider id now : ℕ) (s : Db) (d : Delivery) (w : Rider)
    → lookup id s.deliveries ≡ some d
    → is_rider d.rider rider ≡ true
    → d.status ≡ delivered
    → lookup rider s.riders ≡ some w
    → let r = update_delivery_status rider id completed now s in
      (is_ok r.0 ≡ true) × Holds (Counted w) rider r.1
unfolding update_delivery_status
completing-Counted rider id now s d w e mine at known =
    let t : Db = record s {
      deliveries = update id (moved_to completed now) s.deliveries;
      sent = (s.sent ++ (Event.status_update id completed ∷ [])) ++ (Event.system_chat id ∷ []);
    } in
    let (w', e', counted) = settle_rider-Counted rider t w known in
    (
      ground (arith, settle_rider-ok rider t),
      (w', ground (arith, e', settle_rider-ok rider t), counted),
    )

minus_twice : (z : ℤ) → (z -ℤ pos 1) -ℤ pos 1 ≡ z -ℤ pos 2
minus_twice z = omega int_laws

-- A delivery that was handed over with its PIN, and that the rider then moves to `completed`, counts
-- twice: the rider's current deliveries fall by two and the deliveries done rise by two.
pub double_count :
    (rider id pin now later new_id : ℕ) (s : Db) (d : Delivery) (w : Rider)
    → lookup id s.deliveries ≡ some d
    → CanHandOver rider pin d
    → lookup rider s.riders ≡ some w
    → let t = (verify_delivery_pin rider id pin now new_id s).1 in
      let r = update_delivery_status rider id completed later t in
      (is_ok r.0 ≡ true)
      × Holds
          (λ w'.
            (w'.current_delivery_count ≡ w.current_delivery_count -ℤ pos 2)
            × (w'.total_deliveries ≡ w.total_deliveries + 2))
          rider
          r.1
double_count rider id pin now later new_id s d w found can known =
    let t = (verify_delivery_pin rider id pin now new_id s).1 in
    let (w1, e1, less, more) = handover-counts rider id pin now new_id s d w found can known in
    let there = handover_delivers rider id pin now new_id s d found can in
    let (okay, (w2, e2, counted)) =
      completing-Counted rider id later t (handed_over now d) w1 there can.0 refl e1 in
    (
      okay,
      (
        w2,
        e2,
        (
          counted.0 ∙ ap (λ z. z -ℤ pos 1) less ∙ minus_twice w.current_delivery_count,
          counted.1 ∙ ap (λ n. n + 1) more ∙ omega arith,
        ),
      ),
    )

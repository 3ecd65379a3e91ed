-- ===== src/Rider/Race.antt =====
-- Two acceptances of one delivery whose checks both run before the first save.
use fastmotion_delivery.Base.{ℕ, ◌≡◌, ◌≢◌, true, none, some, arith, ◌∙◌}
use fastmotion_delivery.Base.Dict.{lookup, lookup-update_self, lookup-update_ne}
use fastmotion_delivery.Model.{Db, Delivery, Rider, ok, without_pins}
use fastmotion_delivery.Rider.Commission.{get_commission_config}
use fastmotion_delivery.Rider.Accept.{
  is_searching, accept_check, accept_commit, accepted_by, take_on,
}
use fastmotion_delivery.Rider.Ownership.{CanAccept}

commit-deliveries :
    (rider id now : ℕ) (read d : Delivery) (s : Db)
    → lookup id s.deliveries ≡ some d
    → lookup id (accept_commit rider id now read s).1.deliveries ≡ some (accepted_by rider now d)
unfolding accept_commit get_commission_config
commit-deliveries rider id now read d s e =
    ground (arith, lookup-update_self id (accepted_by rider now) s.deliveries e)

commit-riders :
    (rider id now : ℕ) (read : Delivery) (r : Rider) (s : Db)
    → lookup rider s.riders ≡ some r
    → lookup rider (accept_commit rider id now read s).1.riders ≡ some (take_on r)
unfolding accept_commit get_commission_config
commit-riders rider id now read r s e = ground (arith, lookup-update_self rider take_on s.riders e)

commit-riders_ne :
    (rider id now j : ℕ) (read : Delivery) (s : Db)
    → j ≢ rider
    → lookup j (accept_commit rider id now read s).1.riders ≡ lookup j s.riders
unfolding accept_commit get_commission_config
commit-riders_ne rider id now j read s ne =
    ground (arith, lookup-update_ne j rider take_on s.riders ne)

check_passes :
    (doc : Rider) (id : ℕ) (d : Delivery) (s : Db)
    → CanAccept doc
    → lookup id s.deliveries ≡ some d
    → is_searching d.status ≡ true
    → d.rider ≡ none
    → accept_check doc id s ≡ (ok (without_pins d), s)
unfolding accept_check
check_passes doc id d s can e searching free = ground arith

-- If two riders who may accept both pass the checks of one free delivery before either save, both
-- acceptances go through: the delivery ends with the second rider, and the first one, who is not on
-- it any more, keeps it in the count of current deliveries.
pub accept_race :
    (r1 r2 : ℕ) (doc1 doc2 w1 : Rider) (id now later : ℕ) (d : Delivery) (s : Db)
    → r1 ≢ r2
    → CanAccept doc1
    → CanAccept doc2
    → lookup id s.deliveries ≡ some d
    → is_searching d.status ≡ true
    → d.rider ≡ none
    → lookup r1 s.riders ≡ some w1
    → let read = without_pins d in
      let t = (accept_commit r1 id now read s).1 in
      let u = (accept_commit r2 id later read t).1 in
      (accept_check doc1 id s ≡ (ok read, s))
      × (accept_check doc2 id s ≡ (ok read, s))
      × (lookup id u.deliveries ≡ some (accepted_by r2 later (accepted_by r1 now d)))
      × (lookup r1 u.riders ≡ some (take_on w1))
accept_race r1 r2 doc1 doc2 w1 id now later d s ne c1 c2 e searching free e1 =
    let read : Delivery = without_pins d in
    let t : Db = (accept_commit r1 id now read s).1 in
    (
      check_passes doc1 id d s c1 e searching free,
      check_passes doc2 id d s c2 e searching free,
      commit-deliveries r2 id later read (accepted_by r1 now d) t
          (commit-deliveries r1 id now read d s e),
      commit-riders_ne r2 id later r1 read t ne ∙ commit-riders r1 id now read w1 s e1,
    )

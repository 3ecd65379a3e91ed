-- ===== src/Customer/Runs.antt =====
-- Any sequence of requests of customers.
use fastmotion_delivery.Base.{ℕ, ◌≡◌, arith}
use fastmotion_delivery.Model.{Db}
use fastmotion_delivery.Customer.Cancel.{own_delivery}
use fastmotion_delivery.Customer.Reschedule.{confirm_reschedule_payment}

pub asks_only : (user j : ℕ) (s : Db) → (confirm_reschedule_payment user j s).1 ≡ s
unfolding confirm_reschedule_payment own_delivery
asks_only user j s = ground arith

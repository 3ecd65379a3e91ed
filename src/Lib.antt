-- ===== src/Lib.antt =====
-- Verification of the FastMotion delivery backend: the rules by which deliveries are priced, paid
-- for, offered to riders, carried out and paid out.
--
-- The program is three services over one database. The user service (apps/user-api) takes requests
-- for deliveries and their payments and searches for riders; the rider service (apps/delivery-api)
-- lets riders accept, carry out and finish them and asks for payouts; the admin service
-- (apps/admin-api) assigns riders, corrects deliveries and reviews the payouts. They share the
-- documents of libs/database/src/schemas and the enums and utilities of libs/common/src, and tell each
-- other of events by Redis and an event bus.
--
-- The files and the code they model:
--   Base      shared helpers: Boolean tests and lists over the native numbers, signed integers, and
--             association lists for collections of documents (findById, updateOne, countDocuments).
--   Model     Status: libs/common/src/enums/delivery.enum.ts. Documents, Payments: the schemas. Queues:
--             the Redis state of the matching. Effects: the state `Db` of all collections and of what
--             was sent, and handlers, which read and write it and end in a result or an HTTP error.
--   Pricing   Compute: libs/common/src/utils/delivery-pricing.util.ts (computeDeliveryPricing).
--   Payment   Wallets: apps/user-api/src/payment/repository/payment.repository.ts. Initiate: initiatePayment,
--             processWalletPayment, fundWallet, withdrawFromWallet, getWalletBalance and processRefund
--             of payment.service.ts. Webhook: its handleWebhook... methods. Listener: listeners/
--             refund.listener.ts. Request: all requests as one type, and lists of them.
--   Matching  Store: libs/common/src/modules/delivery-matching/delivery-matching-redis.service.ts.
--             Search, Dispatch: apps/user-api/src/delivery/rider-matching.service.ts.
--   Rider     Commission, Accept, Progress, Pins: apps/delivery-api/src/delivery/delivery.service.ts;
--             Workflow: the requests of delivery.controller.ts and runs of them.
--   Customer  apps/user-api/src/delivery/delivery.service.ts. Queries: those of repository/
--             delivery.repository.ts for what a price is made from. Quoting: calculatePricing. Create,
--             Cancel, Pickup, Reschedule, CouponCheck: the handlers. Request: those that write, as one
--             type, and lists of them.
--   Admin     Assign, Override, Refund: apps/admin-api/src/delivery/delivery.service.ts.
--   Ratings   Rate: createRating and updateRating of apps/user-api/src/rating/rating.service.ts, with
--             the average of repository/rating.repository.ts.
--   Disputes  Filing: apps/user-api/src/dispute/dispute.service.ts. Support: apps/admin-api/src/dispute/
--             dispute.service.ts. Requests: all that write, as one type, and sequences of them.
--   WalletService  libs/common/src/modules/wallet. Transfer, Requests: wallets.service.ts, with the lock
--             of a wallet and the failed save of a record. Verify: verifyAndUpdate and
--             reverseTransaction of transaction.service.ts.
--   Accounts  apps/user-api/src/auth. Contact: phoneFormatter of libs/common/src/utils/others.ts.
--             Tokens: generateRefreshToken and logout of auth.service.ts. SignUp, SignIn: its other
--             handlers. Request: all that write, as one type, and lists of them.
--   RiderAccounts  the accounts of riders. Lookup, SignIn, Recovery: apps/delivery-api/src/auth/
--             auth.service.ts and its strategies. Manage: apps/admin-api/src/rider-management/
--             rider-management.service.ts.
--   System    one request of a rider, a customer or an admin, one event of the payment provider or one
--             turn of the search as a step, and sequences of steps.
--   Earnings  Payout, Credit, Withdraw: creditDeliveryEarnings and withdrawEarnings of
--             apps/delivery-api/src/earnings/earnings.service.ts. Review: approveWithdrawal and
--             rejectWithdrawal of apps/admin-api/src/withdrawals/withdrawals.service.ts.
--   Tests     the theorems at concrete states.
--
-- A handler is a function of the same name in snake_case, with its guards and writes in the order of
-- the source. A write that was made before an exception stays made. Handlers run one after the other;
-- where requests may run between a check and a write, the two are functions of their own
-- (accept_check, accept_commit). Object ids, PINs, references and texts that are only compared are
-- numbers; dates are milliseconds; money is in whole naira, rates and multipliers are in
-- ten-thousandths and distances in metres, so that Math.round of a product is a quotient of whole
-- numbers. Fresh ids, PINs, references and the time are arguments. Balances and counters that $inc
-- may take below zero are signed integers. Loops run over lists, so that no fuel is needed.
--
-- Not modelled: requests that only read, the coordinates of riders, the texts of messages, sockets and
-- pushes beyond the fact that they are sent, and the payment provider, whose call answers or fails as
-- an argument says. The distances and the hour of a date are arguments: floating-point trigonometry
-- and the local clock. A pending order does not expire. The comparison of passwords (bcrypt) and of a
-- type that is read from the database with a number of its enum are parameters, and tokens of Google
-- and of JWT are given as what they say. Emails are taken as characters of ASCII. The accounts of
-- admins, the editing of prices, and access tokens are not modelled.
pub mod Base
pub mod Model
pub mod Payment
pub mod Earnings
pub mod Pricing
pub mod Matching
pub mod Rider
pub mod Customer
pub mod Admin
pub mod Ratings
pub mod RiderAccounts
pub mod Disputes
pub mod WalletService
pub mod Accounts
pub mod System
pub mod Tests

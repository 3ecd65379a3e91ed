-- ===== src/Tests.antt =====
-- The theorems at concrete states.
mod Data
mod RiderRuns
mod RiderAccountRuns
mod SystemRuns
mod EarningsRuns
mod PaymentRuns
mod PricingRuns
mod MatchingRuns
mod CustomerRuns
mod OrderRuns
mod AdminRuns
mod RatingRuns
mod DisputeRuns
mod WalletRuns
mod AccountRuns

-- ===== src/Loans.antt =====
-- Loans: the rules, checkout, return and renewal, and the service in front of them.
pub mod Settings
pub mod Rows
pub mod Sound
pub mod Return
pub mod Renew
pub mod Checkout
pub mod Service
pub mod RoundTrip

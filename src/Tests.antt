-- ===== src/Tests.antt =====
-- Concrete runs of the program, and the theorems at them.
pub mod Worlds
pub mod Rarities
pub mod History
pub mod Pickups
pub mod Payments
pub mod Worker
pub mod Lists
pub mod Middleware
pub mod Reports
pub mod RateLimit
pub mod Households
pub mod Http
pub mod Process
pub mod Server
pub mod Startup

-- ===== src/Repository.antt =====
-- internal/repository: the SQL of each method as a statement on the tables, and the method as a
-- call of it with the code that reads its result.
pub mod Pickups
pub mod Payments
pub mod Households
pub mod Lists
pub mod Reports
pub mod Connection

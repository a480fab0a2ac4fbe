-- ===== src/Service.antt =====
-- internal/service: the business rules BR-01 to BR-06. Spans and log lines are left out.
pub mod Pickups
pub mod Payments
pub mod Reports
pub mod Households

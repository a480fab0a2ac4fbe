-- ===== src/Domain.antt =====
-- internal/domain: the entities, the enumerations, the requests and the sentinel errors.
mod Errors
mod Households
mod Pickups
mod Payments
pub use Errors.*
pub use Households.*
pub use Pickups.{
  WasteType, organic, plastic, paper, electronic, PickupStatus, scheduled, completed, canceled,
  waste_beq, waste_eq, pickup_status_beq, pickup_status_eq, WastePickup, CreatePickupRequest,
  SchedulePickupRequest, PickupFilter, pickup_row,
}
unfoldable pub use Pickups.{payment_amounts}
pub use Payments.{
  PaymentStatus, paid, failed, payment_status_beq, payment_status_eq, ProofKey, ProofUrl, Payment,
  CreatePaymentRequest, PaymentFilter, payment_row,
}

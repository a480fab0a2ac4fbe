-- ===== src/Handler.antt =====
-- internal/handler/handler.go
pub mod Responses
pub mod Handling
pub mod Paging
pub mod Requests
pub mod Validation
pub mod Filters
pub mod Pickups
pub mod Proofs
pub mod Payments
pub mod Households
pub mod Health
pub mod Routes
pub mod Between
pub mod Pages
pub mod HugePages
pub mod Receipts
use community_waste_collecti.Base.{ℕ, ◌+◌, ◌-◌, ◌/◌, ◌==◌, nat_eq, if◌then◌else◌}

-- The `total_pages` of the envelope that respondList writes; the division is by a page size that
-- paginationParams has made positive.
unfoldable pub total_pages : ℕ → ℕ → ℕ
total_pages total per_page =
    let pages = (total + per_page - 1) / per_page in if pages == 0 then 1 else pages

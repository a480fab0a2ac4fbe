-- ===== src/Handler/Filters.antt =====
-- internal/handler/pickup.go and internal/handler/payment.go: the filters of the two lists, read from
-- the query string.
use community_waste_collecti.Base.{String, Option, none, some, ◌==◌, string_eq, if◌then◌else◌}
use community_waste_collecti.Domain.{
  PickupStatus, scheduled, completed, canceled, PickupFilter, PaymentStatus, paid, failed,
  PaymentFilter,
}
use community_waste_collecti.Handler.Responses.{Progress, reached, answered, bad_request, ◌>>=◌}
use community_waste_collecti.Handler.Paging.{Query, pagination_params}
use community_waste_collecti.Handler.Requests.{Packages}

-- The texts of the constants of internal/domain
unfoldable pub pickup_status_of : String → Option PickupStatus
pickup_status_of text =
    if text == "pending"
    then some PickupStatus.pending
    else if text == "scheduled"
    then some scheduled
    else if text == "completed"
    then some completed
    else if text == "canceled"
    then some canceled
    else none

unfoldable pub payment_status_of : String → Option PaymentStatus
payment_status_of text =
    if text == "pending"
    then some PaymentStatus.pending
    else if text == "paid"
    then some paid
    else if text == "failed"
    then some failed
    else none

-- A query parameter that may be left out
unfoldable pub optional : {A : Type 0} → (String → Option A) → String → Progress (Option A)
optional parse text =
    if text == ""
    then reached none
    else elim (parse text) [ none ↦ answered bad_request | some a ↦ reached (some a) ]

module _ {Body Decimal : Type 0} (pkg : Packages Body Decimal) (q : Query) where
  unfoldable pub pickup_filter : Progress PickupFilter
  unfolding pagination_params pickup_status_of optional
  pickup_filter = do
    (page, per_page) ← pagination_params q
    household_id ← optional pkg.parse_uuid q.household_id
    status ← optional pickup_status_of q.status
    reached
        (record { household_id = household_id; status = status; page = page; per_page = per_page })

  unfoldable pub payment_filter : Progress PaymentFilter
  unfolding pagination_params payment_status_of optional
  payment_filter = do
    (page, per_page) ← pagination_params q
    household_id ← optional pkg.parse_uuid q.household_id
    status ← optional payment_status_of q.status
    date_from ← optional pkg.parse_rfc3339 q.date_from
    date_to ← optional pkg.parse_rfc3339 q.date_to
    reached (record {
      household_id = household_id;
      status = status;
      date_from = date_from;
      date_to = date_to;
      page = page;
      per_page = per_page;
    })

-- ===== src/Repository/Reports/Waste.antt =====
-- WasteSummary of internal/repository/payment.go. The order of the answer, which is that of a Go map,
-- is the one in which the types come up, one of those that it may have.
pub mod Counts
pub mod Groups
use community_waste_collecti.Base.{
  ℕ, ◌+◌, ◌&&◌, Bool, List, [], ◌∷◌, ◌++◌, ◌==◌, nat_eq, if◌then◌else◌,
}
use community_waste_collecti.Table.{affected}
use community_waste_collecti.Domain.{
  WasteType, organic, plastic, paper, electronic, waste_eq, PickupStatus, scheduled, completed,
  canceled, pickup_status_eq, WastePickup,
}
use community_waste_collecti.Database.{Db, Action, pure, ◌>>=◌, exec, or_err, internal, select_from}

pub record SummaryRow : Type 0 where
  pub type : WasteType
  pub status : PickupStatus
  pub count : ℕ

-- The statuses of `by_status` are the keys of a map: each one stands once.
pub record WasteTypeSummary : Type 0 where
  pub type : WasteType
  pub total : ℕ
  pub by_status : List (PickupStatus × ℕ)

abbrev pub in_group : WasteType → PickupStatus → WastePickup → Bool
in_group t s p = p.type == t && p.status == s

-- The group of a type and a status, if it has a row.
unfoldable pub summary_row : WasteType → PickupStatus → List WastePickup → List SummaryRow
summary_row t s ps =
    let count = affected (in_group t s) ps in
    if count == 0 then [] else record { type = t; status = s; count = count } ∷ []

unfoldable pub rows_of_type : WasteType → List WastePickup → List SummaryRow
rows_of_type t ps =
    summary_row t PickupStatus.pending ps
    ++ (summary_row t scheduled ps ++ (summary_row t completed ps ++ summary_row t canceled ps))

-- SELECT type, status, COUNT(*) … GROUP BY type, status ORDER BY type, status
unfoldable pub summary_rows : List WastePickup → List SummaryRow
summary_rows ps =
    rows_of_type organic ps
    ++ (rows_of_type plastic ps ++ (rows_of_type paper ps ++ rows_of_type electronic ps))

-- One turn of the loop over the rows.
unfoldable pub add_row : SummaryRow → List WasteTypeSummary → List WasteTypeSummary
add_row r [] = record { type = r.type; total = r.count; by_status = (r.status, r.count) ∷ [] } ∷ []
add_row r (s ∷ ss) =
    let rest = add_row r ss in
    if s.type == r.type
    then record s { total = s.total + r.count; by_status = (r.status, r.count) ∷ s.by_status } ∷ ss
    else s ∷ rest

unfoldable pub index_rows : List SummaryRow → List WasteTypeSummary → List WasteTypeSummary
index_rows [] index = index
index_rows (r ∷ rs) index = index_rows rs (add_row r index)

unfoldable pub waste_summary : Action (List WasteTypeSummary)
waste_summary = do
  rows ← exec (or_err internal) (select_from (λ d. summary_rows d.pickups))
  pure (index_rows rows [])

-- ===== src/Tests/Reports.antt =====
-- The theorems on the reports at concrete tables.
use community_waste_collecti.Base.{◌≤◌, ◌≡◌, refl, List, [], ◌∷◌}
use community_waste_collecti.Table.{affected, find, select}
use community_waste_collecti.Domain.{
  electronic, organic, PaymentStatus, paid, completed, PickupStatus,
}
use community_waste_collecti.Database.{Db, query}
use community_waste_collecti.System.{start_with}
use community_waste_collecti.Repository.Lists.{newest_first, insert_newest, ordered, arrange}
use community_waste_collecti.Repository.Lists.Order.{Every, Descending}
use community_waste_collecti.Repository.Reports.{
  payment_summary, group_by_status, status_group, revenue_of, sum_amounts, PaymentSummaryResult,
  HouseholdHistoryResult, history, household_history,
}
use community_waste_collecti.Repository.Households.{of_household}
use community_waste_collecti.Repository.Reports.Totals.{
  payment_summary_adds_up, paid_total, counted,
}
use community_waste_collecti.Repository.Reports.History.{history_is_of_one_household}
use community_waste_collecti.Repository.Reports.Waste.{
  WasteTypeSummary, waste_summary, summary_rows, rows_of_type, summary_row, in_group, index_rows,
  add_row,
}
use community_waste_collecti.Repository.Reports.Waste.Counts.{
  waste_summary_counts_all, summaries_of, status_of, total_of, has_type,
}
use community_waste_collecti.Tests.Worlds.{
  quiet, home, booked_pickup, collected_pickup, open_payment, settled_payment, settled_db,
}
use community_waste_collecti.Tests.Rarities.{compost_pickup}

-- A paid payment and an open one, and three pickups.
abbrev ledger_db : Db
ledger_db = record settled_db {
  pickups =
      record compost_pickup { id = 6 } ∷ record booked_pickup { id = 5 } ∷ collected_pickup ∷ [];
  payments = record open_payment { id = 4; waste_id = 6; amount = 5000000 } ∷ settled_payment ∷ [];
}

abbrev money : PaymentSummaryResult
money = record {
  by_status =
      record { status = PaymentStatus.pending; count = 1; revenue = 5000000 }
      ∷ record { status = paid; count = 1; revenue = 10000000 }
      ∷ [];
  total_revenue = 10000000;
}

payment_summary_adds_up_example :
    (money.total_revenue ≡ paid_total ledger_db.payments) × (counted money.by_status ≡ 2)
unfolding payment_summary query group_by_status status_group revenue_of sum_amounts affected
payment_summary_adds_up_example = payment_summary_adds_up quiet (start_with ledger_db) money refl

abbrev waste : List WasteTypeSummary
waste =
    record { type = organic; total = 1; by_status = (PickupStatus.pending, 1) ∷ [] }
    ∷ record {
      type = electronic;
      total = 2;
      by_status = (completed, 1) ∷ (PickupStatus.pending, 1) ∷ [];
    }
    ∷ []

waste_summary_counts_all_example :
    (summaries_of electronic waste ≤ 1)
    × (total_of electronic waste ≡ affected (has_type electronic) ledger_db.pickups)
    × ((u : PickupStatus)
        → status_of electronic u waste ≡ affected (in_group electronic u) ledger_db.pickups)
unfolding waste_summary query summary_rows rows_of_type summary_row index_rows add_row affected
waste_summary_counts_all_example =
    waste_summary_counts_all quiet (start_with ledger_db) waste electronic refl

abbrev story : HouseholdHistoryResult
story = record {
  household = home;
  pickups = collected_pickup ∷ [];
  payments = settled_payment ∷ [];
}

history_is_of_one_household_example :
    (home.id ≡ 1)
    × Every (λ p. p.household_id ≡ 1) story.pickups
    × Descending (λ p. p.created_at) story.pickups
    × Every (λ q. q.household_id ≡ 1) story.payments
    × Descending (λ q. q.created_at) story.payments
unfolding household_history history query newest_first insert_newest ordered arrange of_household
    find select
history_is_of_one_household_example =
    history_is_of_one_household quiet 1 (start_with settled_db) story refl

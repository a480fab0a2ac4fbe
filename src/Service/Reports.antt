-- ===== src/Service/Reports.antt =====
-- internal/service/report.go
use community_waste_collecti.Base.{List}
use community_waste_collecti.Domain.{Uuid}
use community_waste_collecti.Database.{Action}
use community_waste_collecti.Repository.Reports
use community_waste_collecti.Repository.Reports.{PaymentSummaryResult, HouseholdHistoryResult}
use community_waste_collecti.Repository.Reports.Waste
use community_waste_collecti.Repository.Reports.Waste.{WasteTypeSummary}

unfoldable pub waste_summary : Action (List WasteTypeSummary)
waste_summary = Waste.waste_summary

unfoldable pub payment_summary : Action PaymentSummaryResult
payment_summary = Reports.payment_summary

unfoldable pub household_history : Uuid → Action HouseholdHistoryResult
household_history id = Reports.household_history id

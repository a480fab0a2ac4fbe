-- ===== src/Repository/Reports/Waste/Groups.antt =====
-- The groups of the query of WasteSummary of internal/repository/payment.go, and what they count.
use community_waste_collecti.Base.{
  ℕ, ◌+◌, ◌&&◌, ◌≡◌, Bool, List, [], ◌∷◌, ◌++◌, arith, ◌==◌, nat_eq, if◌then◌else◌,
}
use community_waste_collecti.Table.{affected}
use community_waste_collecti.Domain.{
  WasteType, organic, plastic, paper, electronic, waste_eq, PickupStatus, scheduled, completed,
  canceled, pickup_status_eq, WastePickup,
}
use community_waste_collecti.Repository.Reports.Waste.{
  SummaryRow, in_group, summary_row, rows_of_type, summary_rows,
}

-- The counts of the rows whose type and status satisfy a test
module _ (test : WasteType → PickupStatus → Bool) where
  unfoldable pub count_of : List SummaryRow → ℕ
  count_of [] = 0
  count_of (r ∷ rs) =
      let rest = count_of rs in if test r.type r.status then r.count + rest else rest

  count_of-++ : (rs ss : List SummaryRow) → count_of (rs ++ ss) ≡ count_of rs + count_of ss
  unfolding count_of
  count_of-++ [] ss = omega arith
  count_of-++ (r ∷ rs) ss = ground (arith, count_of-++ rs ss)

  count_of-row :
      (u : WasteType) (s : PickupStatus) (ps : List WastePickup)
      → count_of (summary_row u s ps) ≡ (if test u s then affected (in_group u s) ps else 0)
  unfolding count_of summary_row
  count_of-row u s ps = ground arith

  abbrev of_type : WasteType → WastePickup → Bool
  of_type u p = p.type == u && test u p.status

  four_statuses :
      (u : WasteType) (ps : List WastePickup)
      → (if test u PickupStatus.pending then affected (in_group u PickupStatus.pending) ps else 0)
          + ((if test u scheduled then affected (in_group u scheduled) ps else 0)
              + ((if test u completed then affected (in_group u completed) ps else 0)
                  + (if test u canceled then affected (in_group u canceled) ps else 0)))
        ≡ affected (of_type u) ps
  unfolding affected
  four_statuses u [] = ground arith
  four_statuses u (p ∷ ps) = ground (
    arith,
    four_statuses u ps,
    pickup_status_eq.equals_iff p.status PickupStatus.pending,
    pickup_status_eq.equals_iff p.status scheduled,
    pickup_status_eq.equals_iff p.status completed,
    pickup_status_eq.equals_iff p.status canceled,
  )

  count_of-type :
      (u : WasteType) (ps : List WastePickup)
      → count_of (rows_of_type u ps) ≡ affected (of_type u) ps
  unfolding rows_of_type
  count_of-type u ps =
      let a : List SummaryRow = summary_row u PickupStatus.pending ps in
      let b : List SummaryRow = summary_row u scheduled ps in
      let c : List SummaryRow = summary_row u completed ps in
      let d : List SummaryRow = summary_row u canceled ps in
      omega (
        arith,
        count_of-++ a (b ++ (c ++ d)),
        count_of-++ b (c ++ d),
        count_of-++ c d,
        count_of-row u PickupStatus.pending ps,
        count_of-row u scheduled ps,
        count_of-row u completed ps,
        count_of-row u canceled ps,
        four_statuses u ps,
      )

  four_types :
      (ps : List WastePickup)
      → affected (of_type organic) ps
          + (affected (of_type plastic) ps
              + (affected (of_type paper) ps + affected (of_type electronic) ps))
        ≡ affected (λ p. test p.type p.status) ps
  unfolding affected
  four_types [] = omega arith
  four_types (p ∷ ps) = ground (
    arith,
    four_types ps,
    waste_eq.equals_iff p.type organic,
    waste_eq.equals_iff p.type plastic,
    waste_eq.equals_iff p.type paper,
    waste_eq.equals_iff p.type electronic,
  )

  pub count_of-all :
      (ps : List WastePickup) → count_of (summary_rows ps) ≡ affected (λ p. test p.type p.status) ps
  unfolding summary_rows
  count_of-all ps =
      let a : List SummaryRow = rows_of_type organic ps in
      let b : List SummaryRow = rows_of_type plastic ps in
      let c : List SummaryRow = rows_of_type paper ps in
      let d : List SummaryRow = rows_of_type electronic ps in
      omega (
        arith,
        count_of-++ a (b ++ (c ++ d)),
        count_of-++ b (c ++ d),
        count_of-++ c d,
        count_of-type organic ps,
        count_of-type plastic ps,
        count_of-type paper ps,
        count_of-type electronic ps,
        four_types ps,
      )

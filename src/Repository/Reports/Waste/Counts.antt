-- ===== src/Repository/Reports/Waste/Counts.antt =====
-- What WasteSummary of internal/repository/payment.go counts.
use community_waste_collecti.Base.{
  ℕ, suc, ◌+◌, ◌≤◌, ◌⊎◌, ◌&&◌, ◌≡◌, ◌∙◌, ap, subst, Bool, List, [], ◌∷◌, arith, inl, inr, ◌==◌,
  nat_eq, if◌then◌else◌,
}
use community_waste_collecti.Table.{affected}
use community_waste_collecti.Domain.{
  WasteType, waste_eq, PickupStatus, pickup_status_eq, WastePickup, ok, Result-cases,
}
use community_waste_collecti.Database.{
  Db, Env, World, ◌>>=◌, exec, or_err, internal, select_from, query,
}
use community_waste_collecti.Database.Calls.{seen, select-result, or_err-ok}
use community_waste_collecti.Repository.Reports.Waste.Groups.{count_of, count_of-all}
use community_waste_collecti.Repository.Reports.Waste.{
  SummaryRow, WasteTypeSummary, in_group, summary_rows, add_row, index_rows, waste_summary,
}

abbrev pub has_type : WasteType → WastePickup → Bool
has_type t p = p.type == t

-- How many summaries of a type there are.
unfoldable pub summaries_of : WasteType → List WasteTypeSummary → ℕ
summaries_of t [] = 0
summaries_of t (s ∷ ss) = let rest = summaries_of t ss in if s.type == t then suc rest else rest

-- The totals of a type
unfoldable pub total_of : WasteType → List WasteTypeSummary → ℕ
total_of t [] = 0
total_of t (s ∷ ss) = let rest = total_of t ss in if s.type == t then s.total + rest else rest

-- The count under a status in a map
unfoldable pub under : PickupStatus → List (PickupStatus × ℕ) → ℕ
under u [] = 0
under u ((s, n) ∷ rest) = let more = under u rest in if s == u then n + more else more

-- The counts of a type under a status
unfoldable pub status_of : WasteType → PickupStatus → List WasteTypeSummary → ℕ
unfolding under
status_of t u [] = 0
status_of t u (s ∷ ss) =
    let rest = status_of t u ss in if s.type == t then under u s.by_status + rest else rest

grows :
    (t : WasteType) (r : SummaryRow) (ss : List WasteTypeSummary)
    → (summaries_of t (add_row r ss) ≡ summaries_of t ss)
      ⊎ ((r.type ≡ t) × (summaries_of t ss ≡ 0) × (summaries_of t (add_row r ss) ≡ 1))
unfolding summaries_of add_row
grows t r [] = ground (arith, waste_eq.equals_iff r.type t)
grows t r (s ∷ ss) = ground (arith, grows t r ss, waste_eq.equals_iff s.type r.type)

summaries_of-add :
    (t : WasteType) (r : SummaryRow) (ss : List WasteTypeSummary)
    → summaries_of t ss ≤ 1
    → summaries_of t (add_row r ss) ≤ 1
summaries_of-add t r ss h = omega (arith, h, grows t r ss)

summaries_of-index :
    (t : WasteType) (rs : List SummaryRow) (ss : List WasteTypeSummary)
    → summaries_of t ss ≤ 1
    → summaries_of t (index_rows rs ss) ≤ 1
unfolding index_rows
summaries_of-index t [] ss h = h
summaries_of-index t (r ∷ rs) ss h =
    summaries_of-index t rs (add_row r ss) (summaries_of-add t r ss h)

abbrev type_is : WasteType → WasteType → PickupStatus → Bool
type_is t u s = u == t

abbrev group_is : WasteType → PickupStatus → WasteType → PickupStatus → Bool
group_is t u v s = v == t && s == u

total_of-add :
    (t : WasteType) (r : SummaryRow) (ss : List WasteTypeSummary)
    → total_of t (add_row r ss) ≡ (if r.type == t then r.count else 0) + total_of t ss
unfolding total_of add_row
total_of-add t r [] = ground arith
total_of-add t r (s ∷ ss) = ground (arith, total_of-add t r ss, waste_eq.equals_iff s.type r.type)

total_of-index :
    (t : WasteType) (rs : List SummaryRow) (ss : List WasteTypeSummary)
    → total_of t (index_rows rs ss) ≡ count_of (type_is t) rs + total_of t ss
unfolding index_rows count_of
total_of-index t [] ss = omega arith
total_of-index t (r ∷ rs) ss =
    ground (arith, total_of-index t rs (add_row r ss), total_of-add t r ss)

status_of-add :
    (t : WasteType) (u : PickupStatus) (r : SummaryRow) (ss : List WasteTypeSummary)
    → status_of t u (add_row r ss)
      ≡ (if group_is t u r.type r.status then r.count else 0) + status_of t u ss
unfolding status_of add_row under
status_of-add t u r [] = ground arith
status_of-add t u r (s ∷ ss) =
    ground (arith, status_of-add t u r ss, waste_eq.equals_iff s.type r.type)

status_of-index :
    (t : WasteType) (u : PickupStatus) (rs : List SummaryRow) (ss : List WasteTypeSummary)
    → status_of t u (index_rows rs ss) ≡ count_of (group_is t u) rs + status_of t u ss
unfolding index_rows count_of
status_of-index t u [] ss = omega arith
status_of-index t u (r ∷ rs) ss =
    ground (arith, status_of-index t u rs (add_row r ss), status_of-add t u r ss)

-- The summaries that the loop makes of the rows of the query
index-counts :
    (t : WasteType) (ps : List WastePickup)
    → (summaries_of t (index_rows (summary_rows ps) []) ≤ 1)
      × (total_of t (index_rows (summary_rows ps) []) ≡ affected (has_type t) ps)
      × ((u : PickupStatus)
          → status_of t u (index_rows (summary_rows ps) []) ≡ affected (in_group t u) ps)
unfolding summaries_of total_of status_of
index-counts t ps = (
  summaries_of-index t (summary_rows ps) [] (omega arith),
  omega (arith, total_of-index t (summary_rows ps) [], count_of-all (type_is t) ps),
  λ u. omega (arith, status_of-index t u (summary_rows ps) [], count_of-all (group_is t u) ps),
)

-- The waste summary counts every pickup once: each type has one summary at most, the total of each
-- type is the number of its pickups at the tables that the query met, and the count under each status
-- is the number of its pickups with that status.
pub waste_summary_counts_all :
    (env : Env) (w : World) (ss : List WasteTypeSummary) (t : WasteType)
    → (waste_summary env w).0 ≡ ok ss
    → (summaries_of t ss ≤ 1)
      × (total_of t ss ≡ affected (has_type t) (seen env w).pickups)
      × ((u : PickupStatus) → status_of t u ss ≡ affected (in_group t u) (seen env w).pickups)
unfolding waste_summary
waste_summary_counts_all env w ss t =
    let rows_of : Db → List SummaryRow = λ d. summary_rows d.pickups in
    elim (Result-cases (exec (or_err internal) (select_from rows_of) env w).0) [
      | inr (x, e) ↦ rw (e, ◌>>=◌) (λ k. absurd (cc k))
      | inl (rows, e) ↦
          rw (e, ◌>>=◌)
            (λ k.
              let it =
                select-result rows_of env w rows
                  (or_err-ok internal (query (select_from rows_of) env w).0 rows e) in
              let same : index_rows rows [] ≡ ss = cc k in
              subst
                (λ xs.
                  (summaries_of t xs ≤ 1)
                  × (total_of t xs ≡ affected (has_type t) (seen env w).pickups)
                  × ((u : PickupStatus)
                      → status_of t u xs ≡ affected (in_group t u) (seen env w).pickups))
                (ap (λ rs. index_rows rs []) it ∙ same) (index-counts t (seen env w).pickups))
    ]

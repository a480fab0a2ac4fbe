-- ===== src/Handler/Between/Reads.antt =====
-- The services that only read, and the requests that come to them.
use community_waste_collecti.Base.{
  Option-cases, ℕ, ℤ, sym, subst, String, List, [], inl, inr, ◌==◌, nat_eq, Bool,
}
use community_waste_collecti.Table.{affected, find, select}
use community_waste_collecti.Domain.{
  Uuid, Time, PickupFilter, PaymentFilter, household_row, Result-cases,
}
use community_waste_collecti.Database.{
  Db, Env, World, exec, or_err, internal, select_from, query, pure, ◌>>=◌,
}
use community_waste_collecti.Repository.Households as HouseholdRows
use community_waste_collecti.Repository.Lists
use community_waste_collecti.Repository.Lists.{list_rows, page_offset, paged, ordered}
use community_waste_collecti.Repository.Lists.Offsets.{paged-db}
use community_waste_collecti.Repository.Reports as ReportRows
use community_waste_collecti.Repository.Reports.Waste
use community_waste_collecti.Repository.Reports.Waste.{summary_rows, index_rows}
use community_waste_collecti.Repository.Reports.{group_by_status, revenue_of}
use community_waste_collecti.Repository.Households.{of_household}
use community_waste_collecti.Service.Households
use community_waste_collecti.Service.Pickups
use community_waste_collecti.Service.Payments
use community_waste_collecti.Service.Reports
use community_waste_collecti.Handler.Responses.{Progress-cases}
use community_waste_collecti.Handler.Paging.{Query}
use community_waste_collecti.Handler.Filters.{pickup_filter, payment_filter}
use community_waste_collecti.Handler.Requests.{Packages}
use community_waste_collecti.Handler.Households as HouseholdHandlers
use community_waste_collecti.Handler.Pickups as PickupHandlers
use community_waste_collecti.Handler.Payments as PaymentHandlers
use community_waste_collecti.Handler.Between.{Kept, select_keeps, exec_keeps, answer_keeps}

module _ (R : Db → Db → Type 0) (env : Env) (kept : Kept R env) where
  page_keeps :
      {A B : Type 0} (offset : ℤ) (per_page : ℕ) (rows : Db → List A) (after : List A → B)
      (w : World)
      → R w.db
          ((exec (or_err internal) (paged offset per_page rows) >>= λ a. pure (after a)) env w).1.db
  page_keeps offset per_page rows after w =
      let kept_db =
        subst (R w.db) (sym (paged-db per_page rows env w offset)) (kept.others w.calls w.db) in
      elim (Result-cases (exec (or_err internal) (paged offset per_page rows) env w).0) [
        | inl (a, e) ↦ rw (e, ◌>>=◌) kept_db
        | inr (x, e) ↦ rw (e, ◌>>=◌) kept_db
      ]

  list_rows_keeps :
      {A : Type 0} (table : Db → List A) (created_at : A → Time) (test : A → Bool)
      (page per_page : ℕ) (w : World)
      → R w.db (list_rows table created_at test page per_page env w).1.db
  unfolding list_rows
  list_rows_keeps table created_at test page per_page w =
      let counting = λ (d : Db). affected test (table d) in
      let v = (query (select_from counting) env w).1 in
      elim (Result-cases (exec (or_err internal) (select_from counting) env w).0) [
        | inl (total, e) ↦
            rw (e, ◌>>=◌)
              (kept.both w.db v.db _ (select_keeps R env kept counting w) (
                page_keeps (page_offset page per_page) per_page
                  (λ d. ordered created_at (env v.calls).scan (select test (table d)))
                  (λ rows. (rows, total)) v))
        | inr (x, e) ↦ rw (e, ◌>>=◌) (select_keeps R env kept counting w)
      ]

  list_pickups_keeps : (f : PickupFilter) (w : World) → R w.db (Pickups.list f env w).1.db
  unfolding Pickups.list Lists.list_pickups
  list_pickups_keeps f w = list_rows_keeps _ _ _ _ _ w

  list_payments_keeps : (f : PaymentFilter) (w : World) → R w.db (Payments.list f env w).1.db
  unfolding Payments.list Lists.list_payments
  list_payments_keeps f w = list_rows_keeps _ _ _ _ _ w

  pub list_households_keeps :
      (page per_page : ℕ) (w : World) → R w.db (Households.list page per_page env w).1.db
  unfolding Households.list Lists.list_households
  list_households_keeps page per_page w = list_rows_keeps _ _ _ _ _ w

  get_by_id_keeps : (id : Uuid) (w : World) → R w.db (Households.get_by_id id env w).1.db
  unfolding Households.get_by_id HouseholdRows.find_by_id
  get_by_id_keeps id w = select_keeps R env kept _ w

  pub waste_summary_keeps : (w : World) → R w.db (Reports.waste_summary env w).1.db
  unfolding Reports.waste_summary Waste.waste_summary
  waste_summary_keeps w =
      exec_keeps R env kept (λ d. summary_rows d.pickups) (λ rows. index_rows rows []) w

  pub payment_summary_keeps : (w : World) → R w.db (Reports.payment_summary env w).1.db
  unfolding Reports.payment_summary ReportRows.payment_summary
  payment_summary_keeps w =
      exec_keeps R env kept (λ d. group_by_status d.payments)
        (λ rows. record { by_status = rows; total_revenue = revenue_of 0 rows }) w

  -- Three statements of a session, one after another
  selects_keep :
      {A B C : Type 0} (f : Db → A) (g : Db → B) (h : Db → C) (w : World)
      → R w.db
          (query
            (select_from h)
            env
            (query (select_from g) env (query (select_from f) env w).1).1).1.db
  selects_keep f g h w =
      let u = (query (select_from f) env w).1 in
      let v = (query (select_from g) env u).1 in
      kept.both w.db u.db _ (select_keeps R env kept f w)
        (kept.both u.db v.db _ (select_keeps R env kept g u) (select_keeps R env kept h v))

  history_keeps : (id : Uuid) (w : World) → R w.db (Reports.household_history id env w).1.db
  unfolding Reports.household_history ReportRows.household_history
  history_keeps id w =
      let home = λ (d : Db). find id d.households in
      let w1 : World = (query (select_from home) env w).1 in
      let pickups = λ (d : Db).
        ordered (λ p. p.created_at) (env w1.calls).scan (select (of_household id) d.pickups) in
      let w2 : World = (query (select_from pickups) env w1).1 in
      selects_keep home pickups
        (λ (d : Db).
          ordered (λ q. q.created_at) (env w2.calls).scan
            (select (λ q. q.household_id == id) d.payments))
        w

module _ {Body Decimal : Type 0} (pkg : Packages Body Decimal) (R : Db → Db → Type 0) (env : Env)
    (kept : Kept R env) where
  pub get_household_keeps :
      (text : String) (w : World) → R w.db (HouseholdHandlers.get_household pkg text env w).1.db
  unfolding HouseholdHandlers.get_household
  get_household_keeps text w = elim (Option-cases (pkg.parse_uuid text)) [
    | inl e ↦ rw e (kept.same w.db)
    | inr (id, e) ↦
        rw e
          (answer_keeps R env kept (Households.get_by_id id) _ w (get_by_id_keeps R env kept id w))
  ]

  pub household_history_keeps :
      (text : String) (w : World) → R w.db (HouseholdHandlers.household_history pkg text env w).1.db
  unfolding HouseholdHandlers.household_history
  household_history_keeps text w = elim (Option-cases (pkg.parse_uuid text)) [
    | inl e ↦ rw e (kept.same w.db)
    | inr (id, e) ↦
        rw e (
          answer_keeps R env kept (Reports.household_history id) _ w
            (history_keeps R env kept id w))
  ]

  pub pickups_page_keeps :
      (q : Query) (w : World) → R w.db (PickupHandlers.list_pickups pkg q env w).1.db
  unfolding PickupHandlers.list_pickups
  pickups_page_keeps q w = elim (Progress-cases (pickup_filter pkg q)) [
    | inl (f, e) ↦
        rw e (answer_keeps R env kept (Pickups.list f) _ w (list_pickups_keeps R env kept f w))
    | inr (x, e) ↦ rw e (kept.same w.db)
  ]

  pub payments_page_keeps :
      (q : Query) (w : World) → R w.db (PaymentHandlers.list_payments pkg q env w).1.db
  unfolding PaymentHandlers.list_payments
  payments_page_keeps q w = elim (Progress-cases (payment_filter pkg q)) [
    | inl (f, e) ↦
        rw e (answer_keeps R env kept (Payments.list f) _ w (list_payments_keeps R env kept f w))
    | inr (x, e) ↦ rw e (kept.same w.db)
  ]

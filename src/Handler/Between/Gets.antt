-- ===== src/Handler/Between/Gets.antt =====
-- The requests to the routes of GET.
use text.Mathlib.TextEquality.{eq_iff}
use community_waste_collecti.Base.{
  ℕ, refl, ◌≢◌, ◌⊎◌, ◌∙◌, String, ◌≡◌, sym, subst, inl, inr, Bool, true, false, arith,
}
use community_waste_collecti.Database.{Db, Env, World, query, select_from}
use community_waste_collecti.Storage.{S3Client, ping}
use community_waste_collecti.Service.Households
use community_waste_collecti.Service.Reports
use community_waste_collecti.Handler.Responses.{Progress-cases}
use community_waste_collecti.Handler.Paging.{Query, pagination_params}
use community_waste_collecti.Handler.Requests.{Packages, Request}
use community_waste_collecti.Handler.Health.{check_db, check_storage, ready_check, health_check}
use community_waste_collecti.Handler.Households.{list_households, waste_summary, payment_summary}
use community_waste_collecti.Handler.Routes.{Endpoint, route_of, Handler, serve}
use community_waste_collecti.Handler.Between.{Kept, select_keeps, answer_keeps}
use community_waste_collecti.Handler.Between.Reads.{
  list_households_keeps, waste_summary_keeps, payment_summary_keeps, get_household_keeps,
  household_history_keeps, pickups_page_keeps, payments_page_keeps,
}

module _ (R : Db → Db → Type 0) (env : Env) (kept : Kept R env) where
  check_db_keeps : (set : Bool) (w : World) → R w.db (check_db set env w).1.db
  unfolding check_db
  check_db_keeps false w = kept.same w.db
  check_db_keeps true w =
      let same : (check_db true env w).1 ≡ (query (select_from (λ d. tt)) env w).1 = ground arith in
      subst (λ (v : World). R w.db v.db) (sym same) (select_keeps R env kept (λ d. tt) w)

  check_storage_keeps : (set : Bool) (w : World) → R w.db (check_storage set env w).1.db
  unfolding check_storage ping
  check_storage_keeps set w =
      let same : (check_storage set env w).1.db ≡ w.db = ground arith in
      subst (R w.db) (sym same) (kept.same w.db)

  ready_check_keeps : (db storage : Bool) (w : World) → R w.db (ready_check db storage env w).1.db
  unfolding ready_check
  ready_check_keeps db storage w =
      let v = (check_db db env w).1 in
      kept.both w.db v.db _ (check_db_keeps db w) (check_storage_keeps storage v)

  households_page_keeps : (q : Query) (w : World) → R w.db (list_households q env w).1.db
  unfolding list_households
  households_page_keeps q w = elim (Progress-cases (pagination_params q)) [
    | inl (paging, e) ↦ rw e (
        answer_keeps R env kept (Households.list paging.0 paging.1) _ w
          (list_households_keeps R env kept paging.0 paging.1 w))
    | inr (x, e) ↦ rw e (kept.same w.db)
  ]

  waste_report_keeps : (w : World) → R w.db (waste_summary env w).1.db
  unfolding waste_summary
  waste_report_keeps w =
      answer_keeps R env kept Reports.waste_summary _ w (waste_summary_keeps R env kept w)

  payment_report_keeps : (w : World) → R w.db (payment_summary env w).1.db
  unfolding payment_summary
  payment_report_keeps w =
      answer_keeps R env kept Reports.payment_summary _ w (payment_summary_keeps R env kept w)

-- A literal that is not "GET"
not_get : (m : String) → (m ≡ "POST") ⊎ ((m ≡ "PUT") ⊎ (m ≡ "DELETE")) → m ≢ "GET"
not_get m (inl e) h = ground (arith, eq_iff "POST" "GET")
not_get m (inr (inl e)) h = ground (arith, eq_iff "PUT" "GET")
not_get m (inr (inr e)) h = ground (arith, eq_iff "DELETE" "GET")

module _ {Body Decimal : Type 0} (pkg : Packages Body Decimal) (s3 : S3Client) (h : Handler)
    (R : Db → Db → Type 0) (env : Env) (kept : Kept R env) where
  pub get_keeps :
      (e : Endpoint) (r : Request Body) (w : World)
      → (route_of e).method ≡ "GET"
      → R w.db (serve pkg s3 h e r env w).1.db
  unfolding serve route_of health_check
  get_keeps Endpoint.health_check r w get = kept.same w.db
  get_keeps Endpoint.ready_check r w get =
      ready_check_keeps R env kept h.db_configured h.storage_configured w
  get_keeps Endpoint.list_households r w get = households_page_keeps R env kept r.query w
  get_keeps Endpoint.get_household r w get = get_household_keeps pkg R env kept r.id w
  get_keeps Endpoint.list_pickups r w get = pickups_page_keeps pkg R env kept r.query w
  get_keeps Endpoint.list_payments r w get = payments_page_keeps pkg R env kept r.query w
  get_keeps Endpoint.waste_summary r w get = waste_report_keeps R env kept w
  get_keeps Endpoint.payment_summary r w get = payment_report_keeps R env kept w
  get_keeps Endpoint.household_history r w get = household_history_keeps pkg R env kept r.id w
  get_keeps Endpoint.create_household r w get = absurd (not_get _ (inl refl) get)
  get_keeps Endpoint.create_pickup r w get = absurd (not_get _ (inl refl) get)
  get_keeps Endpoint.create_payment r w get = absurd (not_get _ (inl refl) get)
  get_keeps Endpoint.schedule_pickup r w get = absurd (not_get _ (inr (inl refl)) get)
  get_keeps Endpoint.complete_pickup r w get = absurd (not_get _ (inr (inl refl)) get)
  get_keeps Endpoint.cancel_pickup r w get = absurd (not_get _ (inr (inl refl)) get)
  get_keeps Endpoint.confirm_payment r w get = absurd (not_get _ (inr (inl refl)) get)
  get_keeps Endpoint.delete_household r w get = absurd (not_get _ (inr (inr refl)) get)

-- A request to a route of GET leaves the tables as they are, where no other session acts: whatever
-- it holds, whichever calls fail and whatever it is answered.
pub get_is_safe :
    {Body Decimal : Type 0} (pkg : Packages Body Decimal) (s3 : S3Client) (h : Handler) (env : Env)
    (e : Endpoint) (r : Request Body) (w : World)
    → ((n : ℕ) (d : Db) → (env n).others d ≡ d)
    → (route_of e).method ≡ "GET"
    → (serve pkg s3 h e r env w).1.db ≡ w.db
get_is_safe pkg s3 h env e r w alone get = sym (get_keeps pkg s3 h ◌≡◌ env unchanged e r w get)
  where
    unchanged : Kept ◌≡◌ env
    unchanged = record {
      same = λ d. refl;
      both = λ c d e p q. p ∙ q;
      others = λ n d. sym (alone n d);
    }

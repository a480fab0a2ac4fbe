-- ===== src/Tests/Lists.antt =====
-- The theorems on the List methods at concrete tables.
use community_waste_collecti.Base.{
  nat_eq, ◌==◌, if◌then◌else◌, arith, ◌≡◌, refl, [], ◌∷◌, none, some,
}
use community_waste_collecti.Table.{affected, select}
use community_waste_collecti.Domain.{
  PaymentFilter, PaymentStatus, PickupFilter, PickupStatus, pickup_status_eq, payment_status_eq, ok,
}
use community_waste_collecti.Database.{Db, Env, query}
use community_waste_collecti.System.{start_with}
use community_waste_collecti.Handler.{total_pages}
use community_waste_collecti.Repository.Lists.{
  newest_first, insert_newest, ordered, arrange, page_rows, list_rows, list_payments,
  payment_matches, pickup_matches, default_page, default_per_page, list_pickups,
}
use community_waste_collecti.Repository.Lists.Pages.{pages_cover_the_list, fetch_pages}
use community_waste_collecti.Repository.Lists.Order.{list_payments-IsPage, IsPage}
use community_waste_collecti.Tests.Worlds.{quiet, booked_pickup, open_payment, collected_db}

-- The second page finds the rows in another order than the first.
abbrev shuffled : Env
shuffled n = record (quiet n) { scan = if n == 3 then 2 ∷ 0 ∷ 0 ∷ [] else [] }

-- Three pickups, the newest in the middle of the table, and pages of two.
abbrev many_db : Db
many_db = record collected_db {
  pickups =
      record booked_pickup { id = 9; created_at = 300 }
      ∷ record booked_pickup { id = 8; created_at = 400 }
      ∷ record booked_pickup { id = 7; created_at = 200 }
      ∷ [];
}

abbrev two_by_two : PickupFilter
two_by_two = record {
  household_id = none;
  status = some PickupStatus.pending;
  page = 0;
  per_page = 2;
}

pages_cover_the_list_example :
    (fetch_pages two_by_two
      (total_pages (affected (pickup_matches two_by_two) many_db.pickups) (default_per_page 2))
      shuffled
      (start_with many_db)).0
    ≡ ok (newest_first (λ p. p.created_at) (select (pickup_matches two_by_two) many_db.pickups))
unfolding affected pickup_matches select
pages_cover_the_list_example =
    pages_cover_the_list two_by_two shuffled (start_with many_db) (λ n. refl) (λ n d. refl)
      ((
        (λ e. absurd (omega (arith, e)), (λ e. absurd (omega (arith, e)), tt)),
        ((λ e. absurd (omega (arith, e)), tt), (tt, tt)),
      ))
      (omega arith)

-- The first page has the two newest rows, and three rows make two pages.
first_page :
    (list_pickups two_by_two quiet (start_with many_db)).0
    ≡ ok (
      record booked_pickup { id = 8; created_at = 400 }
          ∷ record booked_pickup { id = 9; created_at = 300 }
          ∷ [],
      3,
    )
unfolding list_pickups list_rows query newest_first insert_newest ordered arrange page_rows
    pickup_matches default_page default_per_page affected select
first_page = refl

abbrev unpaid : PaymentFilter
unpaid = record {
  household_id = some 1;
  status = some PaymentStatus.pending;
  date_from = none;
  date_to = none;
  page = 1;
  per_page = 10;
}

unpaid-IsPage :
    IsPage (λ q. q.created_at) (payment_matches unpaid) (default_per_page 10) (open_payment ∷ [])
unfolding list_payments list_rows query newest_first insert_newest ordered arrange page_rows
    payment_matches default_page default_per_page affected select
unpaid-IsPage =
    list_payments-IsPage unpaid quiet (start_with collected_db) (open_payment ∷ []) 1 refl

-- ===== src/Tests/Http.antt =====
-- The theorems on internal/handler at concrete requests.
use community_waste_collecti.Base.{
  ℕ, ◌≡◌, ◌≤◌, refl, String, true, false, List, [], ◌∷◌, Option, none, some, ◌==◌, nat_eq,
  string_eq, arith, if◌then◌else◌, not,
}
use community_waste_collecti.Table.{find, update, affected, select, delete}
use community_waste_collecti.Domain.{
  Uuid, Payment, payment_row, PaymentFilter, payment_status_eq, paid,
}
use community_waste_collecti.Database.{stored_time, query}
use community_waste_collecti.Database.Integrity.{Inv, Evolves}
use community_waste_collecti.System.{start_with}
use community_waste_collecti.Strconv.{itoa}
use community_waste_collecti.Storage.Laws.{stored_object, proof_object}
use community_waste_collecti.Service.Payments.Proofs.{after_read}
use community_waste_collecti.Service.Payments.Confirmation.{key_at}
use community_waste_collecti.Repository.Lists.{payment_matches}
use community_waste_collecti.Repository.Lists.Order.{IsPage}
use community_waste_collecti.Handler.Responses.{
  finished, reached, failure, refusal, listing, payments, success, payment, ListMeta,
}
use community_waste_collecti.Handler.Paging.{Query, pagination_params}
use community_waste_collecti.Handler.Paging.Bounds.{pagination_params-itoa}
use community_waste_collecti.Handler.Requests.{
  Packages, Request, PickupForm, ProofPart, FormFile, no_file, part,
}
use community_waste_collecti.Handler.Proofs.{max_bytes}
use community_waste_collecti.Handler.Filters.{payment_filter}
use community_waste_collecti.Handler.Payments.{list_payments, confirm_payment}
use community_waste_collecti.Handler.HugePages.{huge_page_is_an_internal_error}
use community_waste_collecti.Handler.Pages.{payments_listing-IsPage}
use community_waste_collecti.Handler.Receipts.{confirmed_proof-Passed, Passed}
use community_waste_collecti.Handler.Routes.{Endpoint, Handler, serve, serve_all, route_of}
use community_waste_collecti.Handler.Between.Gets.{get_is_safe}
use community_waste_collecti.Handler.Between.Writes.{requests_keep_integrity}
use community_waste_collecti.Tests.Worlds.{
  quiet, quiet-Rely, s3, open_payment, collected_db, collected-Inv,
}

-- What a client sends in these requests
pub data Body : Type 0 where
  nothing : Body
  booking : PickupForm → Body
  upload : FormFile → Body

abbrev pub booking_of : Body → Option PickupForm
booking_of (booking form) = some form
booking_of _ = none

abbrev pub upload_of : Body → FormFile
upload_of (upload form) = form
upload_of _ = no_file

abbrev pub type_of : List ℕ → String
type_of (b ∷ bytes) = if b == 137 then "image/png" else "text/plain"
type_of [] = "text/plain"

-- A UUID is written in decimal.
abbrev pub pkg : Packages Body ℕ
pkg = record {
  parse_uuid = λ text. if text == "3" then some 3 else none;
  parse_rfc3339 = λ text. none;
  detect_content_type = type_of;
  is_positive = λ amount. not (amount == 0);
  bind_household = λ body. none;
  bind_pickup = booking_of;
  bind_schedule = λ body. none;
  bind_payment = λ body. none;
  form_file = λ most body. upload_of body;
  household_tags = λ req. true;
  schedule_tags = λ req. true;
}

abbrev pub handler : Handler
handler = record { db_configured = true; storage_configured = true; max_upload_size_mb = 10 }

abbrev pub no_query : Query
no_query = record {
  page = "";
  per_page = "";
  household_id = "";
  status = "";
  date_from = "";
  date_to = "";
}

abbrev pub by_id : String → Body → Request Body
by_id id body = record { id = id; query = no_query; body = body }

pagination_params-itoa_example :
    pagination_params (record no_query { page = itoa 37; per_page = itoa 50 }) ≡ reached (37, 50)
pagination_params-itoa_example =
    pagination_params-itoa no_query 37 50 (omega arith) (omega arith) (omega arith) (omega arith)

numeral : itoa 1037 ≡ "1037"
unfolding itoa
numeral = refl

get_is_safe_example :
    (serve pkg s3 handler Endpoint.household_history
      (by_id "3" nothing)
      quiet
      (start_with collected_db)).1.db
    ≡ collected_db
unfolding route_of
get_is_safe_example =
    get_is_safe pkg s3 handler quiet Endpoint.household_history (by_id "3" nothing)
      (start_with collected_db) (λ n d. refl) refl

abbrev photo : ProofPart
photo = record {
  content = some (137 ∷ 80 ∷ []);
  size = 2;
  content_type = "image/png";
  rewinds = true;
}

abbrev paid_with_photo : List (Endpoint × Request Body)
paid_with_photo =
    (Endpoint.list_payments, by_id "" nothing)
    ∷ (Endpoint.confirm_payment, by_id "3" (upload (part photo)))
    ∷ (
      Endpoint.create_pickup,
      by_id "" (booking (record { household_id = 1; type = "organic"; safety_check = false })),
    )
    ∷ []

kept_by_requests :
    Inv (serve_all pkg s3 handler paid_with_photo quiet (start_with collected_db)).db
    × Evolves collected_db
        (serve_all pkg s3 handler paid_with_photo quiet (start_with collected_db)).db
kept_by_requests =
    requests_keep_integrity pkg s3 handler quiet quiet-Rely paid_with_photo
      (start_with collected_db) collected-Inv

abbrev pending_query : Query
pending_query = record no_query { status = "pending"; per_page = "5" }

abbrev first_of_one : ListMeta
first_of_one = record { page = 1; per_page = 5; total = 1; total_pages = 1 }

first_page :
    finished (list_payments pkg pending_query quiet (start_with collected_db)).0
    ≡ listing (payments (open_payment ∷ [])) first_of_one
unfolding list_payments community_waste_collecti.Handler.Handling.call
    community_waste_collecti.Service.Payments.list
    community_waste_collecti.Repository.Lists.list_payments
    community_waste_collecti.Repository.Lists.list_rows
    community_waste_collecti.Repository.Lists.newest_first
    community_waste_collecti.Repository.Lists.ordered
    community_waste_collecti.Repository.Lists.arrange
    community_waste_collecti.Repository.Lists.insert_newest
    community_waste_collecti.Repository.Lists.page_rows
    community_waste_collecti.Repository.Lists.default_page
    community_waste_collecti.Repository.Lists.default_per_page payment_matches query affected select
first_page = refl

payments_listing-IsPage_example :
    (f : PaymentFilter) × (payment_filter pkg pending_query ≡ reached f)
    × (1 ≡ f.page)
    × (5 ≡ f.per_page)
    × (1 ≤ f.page)
    × (1 ≤ f.per_page)
    × (f.per_page ≤ 100)
    × (1 ≤ 1)
    × IsPage (λ p. p.created_at) (payment_matches f) f.per_page (open_payment ∷ [])
payments_listing-IsPage_example =
    payments_listing-IsPage pkg pending_query quiet (start_with collected_db) (open_payment ∷ [])
      first_of_one first_page

abbrev receipt : Payment
receipt = record open_payment {
  payment_date = some 103;
  status = paid;
  proof_file_url = some (record {
    endpoint = "http://minio:9000";
    bucket = "proofs";
    key = record { payment = 3; nonce = 7001 };
  });
}

accepted :
    finished (confirm_payment pkg s3 10 "3" (upload (part photo)) quiet (start_with collected_db)).0
    ≡ success 200 (payment receipt)
unfolding confirm_payment community_waste_collecti.Handler.Handling.call
    community_waste_collecti.Service.Payments.confirm
    community_waste_collecti.Service.Payments.settle community_waste_collecti.Service.Payments.mark
    community_waste_collecti.Repository.Payments.find_by_id
    community_waste_collecti.Repository.Payments.confirm
    community_waste_collecti.Repository.Payments.confirm_sql stored_time
    community_waste_collecti.Storage.upload community_waste_collecti.Storage.put_object
    community_waste_collecti.Storage.remove community_waste_collecti.Storage.delete_object query
    find update affected select delete
accepted = refl

confirmed_proof-Passed_example :
    (id : Uuid) × (file : ProofPart) × (bytes : List ℕ) × (r : Payment) × (pkg.parse_uuid "3"
      ≡ some id)
    × (pkg.form_file (max_bytes 10) (upload (part photo)) ≡ part file)
    × Passed pkg file bytes
    × (find id
          (confirm_payment pkg s3 10 "3"
            (upload (part photo))
            quiet
            (start_with collected_db)).1.db.payments
        ≡ some r)
    × (r.status ≡ paid)
    × (stored_object
          (key_at id quiet (after_read id quiet (start_with collected_db)))
          (confirm_payment pkg s3 10 "3"
            (upload (part photo))
            quiet
            (start_with collected_db)).1.bucket
        ≡ some (
            proof_object
              (key_at id quiet (after_read id quiet (start_with collected_db)))
              bytes
              file.size
              file.content_type))
confirmed_proof-Passed_example =
    confirmed_proof-Passed pkg s3 10 "3" (upload (part photo)) quiet quiet-Rely
      (start_with collected_db) receipt collected-Inv accepted

abbrev last_page : Query
last_page = record no_query { page = "9223372036854775807"; per_page = "100" }

abbrev last_filter : PaymentFilter
last_filter = record {
  household_id = none;
  status = none;
  date_from = none;
  date_to = none;
  page = 9223372036854775807;
  per_page = 100;
}

huge_page_is_an_internal_error_example :
    finished (list_payments pkg last_page quiet (start_with collected_db)).0
    ≡ failure (refusal 500 "INTERNAL_ERROR")
unfolding payment_filter
huge_page_is_an_internal_error_example =
    huge_page_is_an_internal_error pkg last_page last_filter quiet (start_with collected_db) refl
      (omega arith)

-- ===== src/Handler/Payments.antt =====
-- internal/handler/payment.go
use community_waste_collecti.Base.{ℕ, String, Bool, some}
use community_waste_collecti.Storage.{S3Client}
use community_waste_collecti.Service.Payments
use community_waste_collecti.Handler.Responses.{
  Response, parsed, success, payment, payments, respond_list,
}
use community_waste_collecti.Handler.Handling.{Handling, ◌>>=◌, pure, call, respond}
use community_waste_collecti.Handler.Paging.{Query}
use community_waste_collecti.Handler.Filters.{payment_filter}
use community_waste_collecti.Handler.Requests.{Packages}
use community_waste_collecti.Handler.Proofs.{max_bytes, proof_of, checked_proof}
use community_waste_collecti.Handler.Validation.{bind_payment_request}

module _ {Body Decimal : Type 0} (pkg : Packages Body Decimal) where
  unfoldable pub confirm_payment : S3Client → ℕ → String → Body → Handling Response
  unfolding checked_proof max_bytes
  confirm_payment s3 max_upload_size_mb id_text body = do
    id ← pure (parsed (pkg.parse_uuid id_text))
    file ← pure (proof_of (pkg.form_file (max_bytes max_upload_size_mb) body))
    bytes ← pure (checked_proof pkg file)
    changed ← call (Payments.confirm s3 id (some bytes) file.size file.content_type)
    respond (success 200 (payment changed))

  unfoldable pub create_payment : Bool → Body → Handling Response
  unfolding bind_payment_request
  create_payment db_configured body = do
    req ← bind_payment_request pkg db_configured body
    created ← call (Payments.create req)
    respond (success 201 (payment created))

  unfoldable pub list_payments : Query → Handling Response
  unfolding payment_filter respond_list
  list_payments q = do
    filter ← pure (payment_filter pkg q)
    found ← call (Payments.list filter)
    respond (respond_list (payments found.0) found.1 filter.page filter.per_page)

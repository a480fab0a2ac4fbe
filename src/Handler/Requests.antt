-- ===== src/Handler/Requests.antt =====
-- What reaches a handler: the parts of an HTTP request that internal/handler reads, and the code of
-- other packages that reads them.
use community_waste_collecti.Base.{ℕ, String, Bool, List, Option}
use community_waste_collecti.Domain.{
  Uuid, Time, CreateHouseholdRequest, SchedulePickupRequest, CreatePaymentRequest,
}
use community_waste_collecti.Handler.Paging.{Query}

-- CreatePickupRequest as c.Bind fills it in, before the tag `oneof` has looked at the type.
pub record PickupForm : Type 0 where
  pub household_id : Uuid
  pub type : String
  pub safety_check : Bool

-- The part `proof` of a multipart body. `content` is `none` when the file cannot be read, and
-- `rewinds` is false when Seek fails.
pub record ProofPart : Type 0 where
  pub content : Option (List ℕ)
  pub size : ℕ
  pub content_type : String
  pub rewinds : Bool

-- FormFile("proof") behind http.MaxBytesReader: an error that wraps *http.MaxBytesError, any other
-- error, or the part.
pub data FormFile : Type 0 where
  too_large no_file : FormFile
  part : ProofPart → FormFile

-- What is called from other packages: uuid.Parse, time.Parse, http.DetectContentType,
-- Decimal.IsPositive, c.Bind with FormFile, and the built-in tags of the validator, which are those
-- of `required`, `min` and `oneof` on the fields that no tag of the program's own stands on.
pub record Packages (Body Decimal : Type 0) : Type 0 where
  pub parse_uuid : String → Option Uuid
  pub parse_rfc3339 : String → Option Time
  pub detect_content_type : List ℕ → String
  pub is_positive : Decimal → Bool
  pub bind_household : Body → Option CreateHouseholdRequest
  pub bind_pickup : Body → Option PickupForm
  pub bind_schedule : Body → Option SchedulePickupRequest
  pub bind_payment : Body → Option (CreatePaymentRequest Decimal)
  pub form_file : ℕ → Body → FormFile
  pub household_tags : CreateHouseholdRequest → Bool
  pub schedule_tags : SchedulePickupRequest → Bool

-- c.Param("id"), the query string and the body
pub record Request (Body : Type 0) : Type 0 where
  pub id : String
  pub query : Query
  pub body : Body

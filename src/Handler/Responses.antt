-- ===== src/Handler/Responses.antt =====
-- internal/handler/handler.go: the envelopes that the handlers write, and the control flow round
-- them. Messages, and the trace data of an error, are left out.
use community_waste_collecti.Base.{
  ℕ, ◌≡◌, refl, ◌⊎◌, inl, inr, String, Bool, true, false, List, Option, none, some,
}
use community_waste_collecti.Domain.{
  Household, WastePickup, Payment, Error, not_found, conflict, business_rule, validation,
  internal_failure,
}
use community_waste_collecti.Repository.Reports.{PaymentSummaryResult, HouseholdHistoryResult}
use community_waste_collecti.Repository.Reports.Waste.{WasteTypeSummary}
use community_waste_collecti.Handler.{total_pages}

-- What the handlers put into the `data` of an envelope.
pub data Payload : Type 0 where
  household : Household → Payload
  pickup : WastePickup → Payload
  payment : Payment → Payload
  households : List Household → Payload
  pickups : List WastePickup → Payload
  payments : List Payment → Payload
  by_type : List WasteTypeSummary → Payload
  payment_totals : PaymentSummaryResult → Payload
  history : HouseholdHistoryResult → Payload

pub record ListMeta : Type 0 where
  pub page : ℕ
  pub per_page : ℕ
  pub total : ℕ
  pub total_pages : ℕ

-- What respondError is given.
pub record Failure : Type 0 where
  pub status : ℕ
  pub code : String

abbrev pub refusal : ℕ → String → Failure
refusal status code = record { status = status; code = code }

-- The status line and the body: successResp, listResp with its status 200, no body with 204,
-- errorResp with its code, and the body of a probe.
pub data Response : Type 0 where
  success : ℕ → Payload → Response
  listing : Payload → ListMeta → Response
  no_content : Response
  failure : Failure → Response
  probe : ℕ → String → List (String × String) → Response

abbrev pub status_of : Response → ℕ
status_of (success status body) = status
status_of (listing body meta) = 200
status_of no_content = 204
status_of (failure f) = f.status
status_of (probe status text checks) = status

unfoldable pub respond_list : Payload → ℕ → ℕ → ℕ → Response
unfolding total_pages
respond_list body total page per_page = listing body (record {
  page = page;
  per_page = per_page;
  total = total;
  total_pages = total_pages total per_page;
})

-- The switch of mapError over the sentinels; its default is ErrInternalFailure's.
unfoldable pub map_error : Error → Failure
map_error not_found = refusal 404 "NOT_FOUND"
map_error conflict = refusal 409 "CONFLICT"
map_error business_rule = refusal 422 "BUSINESS_RULE_VIOLATION"
map_error validation = refusal 400 "VALIDATION_ERROR"
map_error internal_failure = refusal 500 "INTERNAL_ERROR"

-- A handler has come so far, or it has called respondError and returned.
pub data Progress (A : Type 0) : Type 0 where
  reached : A → Progress A
  answered : Failure → Progress A

infixl 5 ◌>>=◌
abbrev pub ◌>>=◌ : {A B : Type 0} (m : Progress A) (next : A → Progress B) → Progress B
reached a >>= next = next a
answered x >>= next = answered x

infixl 5 ◌>>◌
abbrev pub ◌>>◌ : {A B : Type 0} (m : Progress A) (next : Progress B) → Progress B
m >> next = m >>= λ _. next

-- respondError(c, http.StatusBadRequest, "VALIDATION_ERROR", …)
abbrev pub bad_request : Failure
bad_request = refusal 400 "VALIDATION_ERROR"

-- `if !test { return respondError(…) }`
abbrev pub require : Bool → Progress (Unit {0})
require true = reached tt
require false = answered bad_request

-- A parse that fails is answered with 400.
abbrev pub parsed : {A : Type 0} → Option A → Progress A
parsed none = answered bad_request
parsed (some a) = reached a

-- The response of a handler whose last statement gives one.
abbrev pub finished : Progress Response → Response
finished (reached x) = x
finished (answered x) = failure x

pub Progress-cases :
    {A : Type 0} (p : Progress A) → ((a : A) × (p ≡ reached a)) ⊎ ((x : Failure) × (p ≡ answered x))
Progress-cases (reached a) = inl (a, refl)
Progress-cases (answered x) = inr (x, refl)

-- Code that came through came through each of its steps.
pub bind-eq-reached :
    {A B : Type 0} (p : Progress A) (f : A → Progress B) {b : B}
    → (p >>= f) ≡ reached b
    → (a : A) × (p ≡ reached a) × (f a ≡ reached b)
bind-eq-reached (reached a) f h = (a, refl, h)
bind-eq-reached (answered x) f h = absurd (cc h)

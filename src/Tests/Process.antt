-- ===== src/Tests/Process.antt =====
-- The theorems on internal/config, cmd/api and cmd/route-extract at concrete inputs.
use community_waste_collecti.Base.{
  ℕ, ◌≡◌, ◌≢◌, ◌↔◌, ◌⊎◌, refl, inl, inr, Bool, leb, Option, ◌==◌, string_eq, if◌then◌else◌, String,
  true, false, List, [], ◌∷◌, ◌++◌, none, some, arith, ltb, pos,
}
use community_waste_collecti.Repository.Pickups.{is_expired_organic}
use community_waste_collecti.Worker.{new_organic_canceler, cutoff_time}
use community_waste_collecti.Config.{Numbers, Config, load, validate}
use community_waste_collecti.Config.Validity.{validate-Accepted, Accepted, Ieee}
use community_waste_collecti.Config.Cutoff.{long_cutoff_expires_at_once}
use community_waste_collecti.RouteExtract.{main as route_extract, contains, scan, keep_if}
use community_waste_collecti.RouteExtract.Parity.{main_checks_parity, product_routes, documented}
use community_waste_collecti.Main.{
  Outside, main, init_infra, init_tracer, database_opened, tracer_started,
}
use community_waste_collecti.Main.Ends.{main_ends, Closes}
use community_waste_collecti.Tests.Rarities.{compost_pickup}

-- Rates in whole requests, and no durations
abbrev pub whole : Numbers ℕ
whole = record {
  parse_float = λ text. none;
  parse_duration = λ text. none;
  float_of = λ n. n;
  less_than = ltb;
}

abbrev defaults : Config ℕ
defaults = load whole (λ key. "")

abbrev below_number : Option ℕ → ℕ → Bool
below_number none n = false
below_number (some x) n = ltb x n

-- Rates in whole requests, and one that is not a number
abbrev with_nan : Numbers (Option ℕ)
with_nan = record {
  parse_float = λ text. if text == "NaN" then some none else none;
  parse_duration = λ text. none;
  float_of = λ n. some n;
  less_than = below_number;
}

abbrev is_nan : Option ℕ → Bool
is_nan none = true
is_nan (some x) = false

abbrev at_least : Option ℕ → ℕ → Bool
at_least none n = false
at_least (some x) n = leb n x

with_nan-Ieee : Ieee with_nan is_nan at_least
with_nan-Ieee none n = (λ h. inr refl, λ h. refl)
with_nan-Ieee (some x) n = (λ h. inl (ground arith), λ h. ground arith)

-- RATE_LIMIT_RPS=NaN, and no other variable
abbrev no_rate : Config (Option ℕ)
no_rate = load with_nan (λ key. if key == "RATE_LIMIT_RPS" then "NaN" else "")

validate-Accepted_example : (validate with_nan no_rate ≡ none) ↔ Accepted is_nan at_least no_rate
validate-Accepted_example = validate-Accepted with_nan is_nan at_least no_rate with_nan-Ieee

-- A rate that is not a number is accepted.
nan_is_accepted : (validate with_nan no_rate ≡ none) × (is_nan no_rate.rate_limit_rps ≡ true)
unfolding load validate
nan_is_accepted = (refl, refl)

-- With no variable set, Validate accepts what Load gives.
defaults_are_fine : validate whole defaults ≡ none
unfolding load validate
defaults_are_fine = refl

long_cutoff_expires_at_once_example :
    (validate whole (record defaults { worker_organic_cutoff_days = pos 110000 }) ≡ none)
    × (is_expired_organic
          (cutoff_time 1000 (new_organic_canceler (pos 110000)).cutoff)
          compost_pickup
        ≡ true)
long_cutoff_expires_at_once_example =
    long_cutoff_expires_at_once whole defaults 110000 1000 compost_pickup defaults_are_fine
      (omega arith) (omega arith) refl refl (omega arith)

-- A document with one route of the service
abbrev document : List String
document = "paths:" ∷ "  /api/payments:" ∷ "    post:" ∷ "      summary: Pay" ∷ []

main_checks_parity_example :
    (route_extract (some document) ≡ 0)
    ↔ ((r : String) → contains product_routes r ≡ contains (documented document) r)
main_checks_parity_example = main_checks_parity document

one_route : documented document ≡ "POST /api/payments" ∷ []
unfolding scan keep_if community_waste_collecti.RouteExtract.is_product
one_route = refl

-- A worker that does not end, and a tracer that did not start
abbrev stubborn : Outside
stubborn = record {
  tracer_starts = false;
  db_connects = true;
  s3_starts = true;
  bucket_ensured = true;
  metrics_listens = true;
  api_before_panic = false;
  signal_at = 500;
  worker_takes = none;
  http_takes = some 7;
  metrics_takes = none;
  tracer_takes = none;
}

main_ends_example :
    ((validate whole defaults ≡ none)
      × ((init_infra stubborn).1 ≡ true)
      × (((stubborn.metrics_listens ≡ true)
            × ((main whole defaults stubborn).exit_code ≡ 0)
            × Closes defaults stubborn (main whole defaults stubborn).shutdown)
          ⊎ ((stubborn.metrics_listens ≡ false)
              × ((main whole defaults stubborn).exit_code ≡ 2)
              × ((main whole defaults stubborn).shutdown ≡ []))))
    ⊎ ((validate whole defaults ≡ none)
        × ((init_infra stubborn).1 ≡ false)
        × ((main whole defaults stubborn).exit_code ≡ 1)
        × ((main whole defaults stubborn).started_parts
            ≡ (init_infra stubborn).0 ++ init_tracer stubborn)
        × ((main whole defaults stubborn).shutdown ≡ []))
    ⊎ ((validate whole defaults ≢ none)
        × ((main whole defaults stubborn).exit_code ≡ 1)
        × ((main whole defaults stubborn).started_parts ≡ [])
        × ((main whole defaults stubborn).shutdown ≡ []))
main_ends_example = main_ends whole defaults stubborn

-- A process without its bucket leaves its tracer and its database behind.
no_bucket :
    (main whole defaults
      (record stubborn { bucket_ensured = false; tracer_starts = true })).started_parts
    ≡ database_opened ∷ tracer_started ∷ []
unfolding main validate load init_infra init_tracer
no_bucket = refl

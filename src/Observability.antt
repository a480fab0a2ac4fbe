-- ===== src/Observability.antt =====
-- internal/observability/logger.go and tracer.go: what the logger and the tracer are made with. The
-- handlers of log/slog and the exporter of OpenTelemetry are left out.
use community_waste_collecti.Base.{
  String, Bool, not, List, ◌∷◌, Option, none, some, ◌==◌, string_eq, if◌then◌else◌,
}
use community_waste_collecti.Config.{Config}

pub data Level : Type 0 where
  debug info warn error : Level

pub data Format : Type 0 where
  text json : Format

-- What slog.New is given
pub record Logger : Type 0 where
  pub level : Level
  pub format : Format

unfoldable pub level_of : String → Level
level_of name =
    if name == "debug"
    then Level.debug
    else if name == "warn"
    then Level.warn
    else if name == "error"
    then Level.error
    else Level.info

unfoldable pub new_logger : {Float : Type 0} → Config Float → Logger
unfolding level_of
new_logger cfg = record {
  level = level_of cfg.log_level;
  format = if cfg.log_format == "text" then Format.text else Format.json;
}

-- The ids of a valid span
pub record Span : Type 0 where
  pub trace_id : String
  pub span_id : String

-- EnrichLogger on the attributes that a logger adds to its lines
unfoldable pub enrich_logger : List (String × String) → Option Span → List (String × String)
enrich_logger attrs none = attrs
enrich_logger attrs (some s) = ("span_id", s.span_id) ∷ ("trace_id", s.trace_id) ∷ attrs

pub record Tracer : Type 0 where
  pub endpoint : String
  pub insecure : Bool
  pub service_name : String
  pub service_version : String

-- InitTracer up to its errors: whether an exporter and a resource are made. `tls_insecure` is the
-- environment's OTEL_EXPORTER_OTLP_TLS_INSECURE.
unfoldable pub init_tracer :
    {Float : Type 0} → Config Float → String → (String → Bool → Bool) → Bool → Option Tracer
init_tracer cfg tls_insecure exporter_made resource_made =
    let insecure = not (tls_insecure == "false") in
    if exporter_made cfg.otel_endpoint insecure
    then if resource_made
      then some (record {
        endpoint = cfg.otel_endpoint;
        insecure = insecure;
        service_name = cfg.otel_service_name;
        service_version = cfg.otel_service_version;
      })
      else none
    else none

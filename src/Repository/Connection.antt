-- ===== src/Repository/Connection.antt =====
-- internal/repository/db.go: the connection string and the pool. net/url is a parameter: Parse, the
-- query's Get("application_name"), and String after Set("application_name", …).
pub mod Tags
use Prim.Native.Char.{code}
use Prim.Native.String
use community_waste_collecti.Base.{
  ℕ, String, Bool, true, false, ◌&&◌, ◌||◌, List, [], ◌∷◌, Option, none, some, ◌==◌, nat_eq,
  string_eq, if◌then◌else◌, ℤ,
}
use community_waste_collecti.Config.{Config}

pub record UrlPackage (Url : Type 0) : Type 0 where
  pub parse : String → Option Url
  pub application_name : Url → String
  pub with_application_name : Url → String → String

-- strings.HasPrefix
unfoldable pub has_prefix : String → String → Bool
has_prefix s String.[] = true
has_prefix String.[] (String.◌∷◌ d p) = false
has_prefix (String.◌∷◌ c s) (String.◌∷◌ d p) = code c == code d && has_prefix s p

-- strings.Contains
unfoldable pub str_contains : String → String → Bool
unfolding has_prefix
str_contains String.[] sub = has_prefix "" sub
str_contains (String.◌∷◌ c s) sub = has_prefix (String.◌∷◌ c s) sub || str_contains s sub

abbrev pub is_url : String → Bool
is_url dsn = has_prefix dsn "postgres://" || has_prefix dsn "postgresql://"

abbrev pub keyword : String
keyword = "application_name="

unfoldable pub inject_application_name : {Url : Type 0} → UrlPackage Url → String → String → String
unfolding has_prefix str_contains
inject_application_name url dsn app_name =
    if app_name == ""
    then dsn
    else if is_url dsn
    then elim (url.parse dsn) [
      | none ↦ dsn
      | some u ↦ if url.application_name u == "" then url.with_application_name u app_name else dsn
    ]
    else if str_contains dsn keyword
    then dsn
    else if dsn == ""
    then String.◌++◌ keyword app_name
    else String.◌++◌ dsn (String.◌++◌ " application_name=" app_name)

-- What a *sqlx.DB is told
pub record Pool : Type 0 where
  pub dsn : String
  pub max_open_conns : ℤ
  pub max_idle_conns : ℤ
  pub conn_max_idle_time : ℤ
  pub conn_max_lifetime : ℤ

-- `opens` is sqlx.Connect, which says whether a connection string leads to a database.
unfoldable pub connect :
    {Float Url : Type 0} → UrlPackage Url → (String → Bool) → Config Float → Option Pool
unfolding inject_application_name
connect url opens cfg =
    let dsn = inject_application_name url cfg.database_url cfg.db_application_name in
    if opens dsn
    then some (record {
      dsn = dsn;
      max_open_conns = cfg.db_max_open_conns;
      max_idle_conns = cfg.db_max_idle_conns;
      conn_max_idle_time = cfg.db_conn_max_idle_time;
      conn_max_lifetime = cfg.db_conn_max_lifetime;
    })
    else none

-- db.Stats(), and the gauges of internal/observability/metrics.go that show it
pub record Stats : Type 0 where
  pub open_connections : ℕ
  pub in_use : ℕ
  pub idle : ℕ

-- The loop of StartDBPoolStatsCollector over the stats at its ticks, up to its cancellation
unfoldable pub collect_stats : List Stats → Stats → Stats
collect_stats [] gauges = gauges
collect_stats (s ∷ more) gauges = collect_stats more s

-- ===== src/Tests/Startup.antt =====
-- The start of cmd/api/main.go at concrete configurations: connection strings, loggers, servers.
use community_waste_collecti.Base.{
  [], ℕ, ◌≡◌, refl, String, Bool, some, ◌==◌, string_eq, nat_eq, if◌then◌else◌, pos,
}
use community_waste_collecti.Domain.{ok, err, internal_failure}
use community_waste_collecti.Database.{Env, delivered, refused}
use community_waste_collecti.System.{start_with, empty_db}
use community_waste_collecti.Storage.{ensure_bucket}
use community_waste_collecti.Config.{Config, load}
use community_waste_collecti.Observability.{Level, Format, new_logger}
use community_waste_collecti.Repository.Connection.{UrlPackage, inject_application_name}
use community_waste_collecti.Main.Wiring.{api_server, debug_addr, background_worker}
use community_waste_collecti.Tests.Process.{whole}

-- URLs of one kind, with a name or without
abbrev urls : UrlPackage Bool
urls = record {
  parse = λ dsn. some (dsn == "postgres://db?application_name=x");
  application_name = λ named. if named then "x" else "";
  with_application_name = λ named name. "postgres://db?application_name=x";
}

abbrev tagged : String → String
tagged dsn = inject_application_name urls dsn "waste"

keywords : tagged "host=db" ≡ "host=db application_name=waste"
unfolding inject_application_name
keywords = refl

empty : tagged "" ≡ "application_name=waste"
unfolding inject_application_name
empty = refl

own_name : tagged "application_name=mine" ≡ "application_name=mine"
unfolding inject_application_name
own_name = refl

url : tagged "postgres://db" ≡ "postgres://db?application_name=x"
unfolding inject_application_name
url = refl

-- The fallback of another name is taken for the name.
fallback_name : tagged "fallback_application_name=x" ≡ "fallback_application_name=x"
unfolding inject_application_name
fallback_name = refl

abbrev configured : Config ℕ
configured = load whole (λ key. "")

plain_logger : new_logger configured ≡ record { level = Level.info; format = Format.json }
unfolding new_logger load
plain_logger = refl

listens : ((api_server configured).addr ≡ ":8080") × (debug_addr configured ≡ "127.0.0.1:6060")
unfolding api_server debug_addr load
listens = (refl, refl)

three_days : (background_worker configured).cutoff ≡ pos 259200000000000
unfolding background_worker load
three_days = refl

-- HeadBucket fails, and CreateBucket works; then both fail.
abbrev new_store : Env
new_store n = record {
  others = λ d. d;
  reply = if n == 0 then refused else delivered;
  now = n;
  nonce = n;
  scan = [];
}

abbrev no_store : Env
no_store n = record { others = λ d. d; reply = refused; now = n; nonce = n; scan = [] }

created : (ensure_bucket new_store (start_with empty_db)).0 ≡ ok tt
unfolding ensure_bucket
created = refl

unreachable : (ensure_bucket no_store (start_with empty_db)).0 ≡ err internal_failure
unfolding ensure_bucket
unreachable = refl

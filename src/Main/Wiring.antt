-- ===== src/Main/Wiring.antt =====
-- cmd/api/main.go: what the parts of the process are made with, of its configuration.
use community_waste_collecti.Base.{ℕ, String, true, ℤ, pos, negsuc}
use Prim.Native.String
use community_waste_collecti.Config.{Config}
use community_waste_collecti.Storage.{S3Client}
use community_waste_collecti.Handler.Routes.{Handler}
use community_waste_collecti.Worker.{OrganicCanceler, new_organic_canceler}

-- An http.Server of the process
pub record HttpServer : Type 0 where
  pub addr : String
  pub read_header_timeout : ℤ
  pub read_timeout : ℤ
  pub write_timeout : ℤ
  pub idle_timeout : ℤ

-- A limit of megabytes, which http.MaxBytesReader takes for 0 below that
abbrev megabytes : ℤ → ℕ
megabytes (pos n) = n
megabytes (negsuc n) = 0

module _ {Float : Type 0} (cfg : Config Float) where
  -- handler.New as buildHTTPServer calls it
  unfoldable pub new_handler : Handler
  new_handler = record {
    db_configured = true;
    storage_configured = true;
    max_upload_size_mb = megabytes cfg.max_upload_size_mb;
  }

  -- NewS3Client
  unfoldable pub new_s3_client : S3Client
  new_s3_client = record { bucket = cfg.s3_bucket; endpoint = cfg.s3_endpoint }

  -- startBackgroundWorker
  unfoldable pub background_worker : OrganicCanceler
  unfolding new_organic_canceler
  background_worker = new_organic_canceler cfg.worker_organic_cutoff_days

  -- startAPIServer
  unfoldable pub api_server : HttpServer
  api_server = record {
    addr = String.◌++◌ ":" cfg.app_port;
    read_header_timeout = cfg.http_read_header_timeout;
    read_timeout = cfg.http_read_timeout;
    write_timeout = cfg.http_write_timeout;
    idle_timeout = cfg.http_idle_timeout;
  }

  -- startMetricsServer, with StartMetricsServer of internal/observability/metrics.go
  unfoldable pub metrics_server : HttpServer
  metrics_server = record {
    addr = String.◌++◌ ":" cfg.metrics_port;
    read_header_timeout = pos 5000000000;
    read_timeout = pos 0;
    write_timeout = pos 0;
    idle_timeout = pos 0;
  }

  -- startDebugServer
  unfoldable pub debug_addr : String
  debug_addr = String.◌++◌ "127.0.0.1:" cfg.debug_port

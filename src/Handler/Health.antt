-- ===== src/Handler/Health.antt =====
-- internal/handler/health.go
use community_waste_collecti.Base.{String, Bool, true, false, ◌&&◌, [], ◌∷◌, if◌then◌else◌}
use community_waste_collecti.Domain.{ok, err}
use community_waste_collecti.Database.{Env, World, query, done, failed_with, select_from}
use community_waste_collecti.Storage
use community_waste_collecti.Handler.Responses.{Response, reached, probe}
use community_waste_collecti.Handler.Handling.{Handling, respond}

unfoldable pub health_check : Handling Response
health_check = respond (probe 200 "ok" [])

-- A dependency: its text among the checks, and whether it is ready.
abbrev pub Check : Type 0
Check = String × Bool

-- `h.db == nil`, or h.db.PingContext
unfoldable pub check_db : Bool → Env → World → Check × World
check_db false env w = (("not_configured", false), w)
check_db true env w =
    let (r, w') = query (select_from (λ d. tt)) env w in
    elim r [ done _ ↦ (("ok", true), w') | failed_with _ ↦ (("unreachable", false), w') ]

-- `h.storage == nil`, or h.storage.Ping
unfoldable pub check_storage : Bool → Env → World → Check × World
check_storage false env w = (("not_configured", false), w)
check_storage true env w =
    let (r, w') = Storage.ping env w in
    elim r [ ok _ ↦ (("ok", true), w') | err _ ↦ (("unreachable", false), w') ]

unfoldable pub ready_check : Bool → Bool → Handling Response
unfolding check_db check_storage
ready_check db_configured storage_configured env w =
    let (db, w1) = check_db db_configured env w in
    let (storage, w2) = check_storage storage_configured env w1 in
    let checks = ("db", db.0) ∷ ("storage", storage.0) ∷ [] in
    let ready = db.1 && storage.1 in
    (reached (if ready then probe 200 "ready" checks else probe 503 "unready" checks), w2)

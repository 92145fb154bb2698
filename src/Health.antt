-- ===== src/Health.antt =====
-- `ping_database` of shared/db/session.py and the readiness probes of the three services: `readyz`
-- of services/gateway/api/health.py, services/processor/main.py and
-- services/outbox_publisher/main.py. Waiting is counted in units of the caller's backoff.
pub mod Readiness
use rt_financial_anomaly_det.Prelude.{
  ℕ, zero, suc, ◌+◌, ◌*◌, String, Bool, true, false, ◌&&◌, Option, none, some, List, [], ◌∷◌, ◌==◌,
  if◌then◌else◌,
}

-- what `ping_database` answers or that it raises
pub data Ping : Type 0 where
  answered : Bool → Ping
  raised : Ping

module _ (connects : ℕ → Bool) (max_retries : ℕ) where
  -- the loop over the attempts that are left, from one attempt on, with the backoff and the time
  -- that was waited so far; `connects` tells whether SELECT 1 succeeds at an attempt
  unfoldable pub ping_loop : ℕ → ℕ → ℕ → ℕ → Ping × ℕ
  ping_loop zero attempt backoff waited = (answered false, waited)
  ping_loop (suc left) attempt backoff waited =
      let later = ping_loop left (suc attempt) (backoff * 2) (waited + backoff) in
      if connects attempt
      then (answered true, waited)
      else if attempt == max_retries
      then (raised, waited)
      else later

  -- `ping_database`; an engine that was not initialised raises before the loop
  unfoldable pub ping_database : Bool → ℕ → Ping × ℕ
  unfolding ping_loop
  ping_database initialized initial_backoff =
      if initialized then ping_loop max_retries 1 initial_backoff 0 else (raised, 0)

-- what a Redis client answers to PING, or that there is no client
pub data Redis : Type 0 where
  not_initialized : Redis
  client : Bool → Redis

-- the response of a probe: its status, and the text of each dependency
pub record Probe : Type 0 where
  pub status_code : ℕ
  pub status : String
  pub dependencies : List (String × String)

abbrev pub database_text : Ping → String
database_text (answered true) = "connected"
database_text (answered false) = "unavailable"
database_text raised = "error"

abbrev pub database_healthy : Ping → Bool
database_healthy (answered b) = b
database_healthy raised = false

abbrev pub redis_text : Redis → String
redis_text not_initialized = "not_initialized"
redis_text (client true) = "connected"
redis_text (client false) = "unavailable"

abbrev pub redis_healthy : Redis → Bool
redis_healthy not_initialized = true
redis_healthy (client b) = b

abbrev pub status_of : Bool → ℕ
status_of is_healthy = if is_healthy then 200 else 503

unfoldable pub respond : Bool → List (String × String) → Probe
respond is_healthy dependencies = record {
  status_code = status_of is_healthy;
  status = if is_healthy then "ready" else "unhealthy";
  dependencies = dependencies;
}

-- the probe of the gateway
unfoldable pub gateway_readyz : Ping → Redis → Probe
unfolding respond
gateway_readyz ping redis = respond (database_healthy ping && redis_healthy redis) (
    ("database", database_text ping)
    ∷ ("redis", redis_text redis)
    ∷ ("telemetry", "initialized")
    ∷ [])

-- the probe of the processor, which has a client; `model_loaded` is `ml_scorer is not None`
unfoldable pub processor_readyz : Bool → Ping → Bool → Probe
unfolding respond
processor_readyz model_loaded ping pong = respond (database_healthy ping && pong && model_loaded) (
    ("database", database_text ping)
    ∷ ("redis", redis_text (client pong))
    ∷ ("model_loaded", if model_loaded then "true" else "false")
    ∷ ("telemetry", "initialized")
    ∷ [])

-- the probe of the outbox publisher, which has a client
unfoldable pub publisher_readyz : Ping → Bool → Probe
unfolding respond
publisher_readyz ping pong = respond (database_healthy ping && pong) (
    ("database", database_text ping)
    ∷ ("redis", redis_text (client pong))
    ∷ ("telemetry", "initialized")
    ∷ [])

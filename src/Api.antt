-- ===== src/Api.antt =====
-- internal/api/api.go: the routes of the HTTP server.
use eth_tracker.Prelude.{ℕ, String, [], ◌∷◌}
use eth_tracker.Prelude.Maps.{Map}

abbrev pub metrics_path : String
metrics_path = "/metrics"

abbrev pub stats_path : String
stats_path = "/stats"

abbrev pub health_path : String
health_path = "/health"

-- http.StatusOK
abbrev pub status_ok : ℕ
status_ok = 200

-- What a handler writes: the status, the header, and the body.
pub record Response : Type 0 where
  pub status : ℕ
  pub header : Map String String
  pub body : String

-- A handler reads the state of the service at most.
abbrev pub HandlerFunc : Type 0 → Type 0
HandlerFunc S = S → Response

abbrev pub json_header : Map String String
json_header = ("Content-Type", "application/json") ∷ []

-- `write_prometheus` is the text that `metrics.WritePrometheus` writes; the status is the one that
-- net/http sends with a body if none was written.
abbrev pub metrics_handler : {S : Type 0} → (S → String) → HandlerFunc S
metrics_handler write_prometheus s = record {
  status = status_ok;
  header = [];
  body = write_prometheus s;
}

abbrev pub stats_handler : {S : Type 0} → HandlerFunc S
stats_handler s = record {
  status = status_ok;
  header = json_header;
  body = "{\"status\":\"ok\",\"message\":\"stats endpoint not yet implemented\"}";
}

abbrev pub health_handler : {S : Type 0} → HandlerFunc S
health_handler s = record {
  status = status_ok;
  header = json_header;
  body = "{\"status\":\"healthy\"}";
}

-- The routes for GET, by their paths.
abbrev pub new_api : {S : Type 0} → (S → String) → Map String (HandlerFunc S)
new_api write_prometheus =
    (metrics_path, metrics_handler write_prometheus)
    ∷ (stats_path, stats_handler)
    ∷ (health_path, health_handler)
    ∷ []

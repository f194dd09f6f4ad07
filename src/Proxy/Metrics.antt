-- ===== src/Proxy/Metrics.antt =====
-- vortex-proxy/src/metrics_ext.rs. Bucket bounds are in millionths, so that all of them are whole. The
-- exporter's builder is an argument: `takes` for `set_buckets_for_metric`, `installs` for `install`,
-- which binds the address.
use vortex_proxy.Prelude.{ℕ, Bool, List, [], ◌∷◌, Text, bytes, if◌then◌else◌, ◌*◌, map}
use vortex_proxy.Net.{SocketAddr, v4}
use vortex_proxy.Outcome.{Outcome, ok, err}

pub record Exporter : Type 0 where
  pub http_listener : SocketAddr
  pub buckets : List (Text × List ℕ)

pub record Prometheus : Type 0 where
  pub takes : Text → List ℕ → Bool
  pub installs : Exporter → Bool

-- In microseconds.
abbrev pub duration_buckets : List ℕ
duration_buckets =
    1000 ∷ 5000 ∷ 10000 ∷ 25000 ∷ 50000 ∷ 100000 ∷ 250000 ∷ 500000 ∷ 1000000 ∷ 2500000 ∷ 5000000
    ∷ 10000000 ∷ []

abbrev pub token_buckets : List ℕ
token_buckets =
    map (λ n. n * 1000000) (10 ∷ 50 ∷ 100 ∷ 500 ∷ 1000 ∷ 2048 ∷ 4096 ∷ 8192 ∷ 16384 ∷ 32768 ∷ [])

unfoldable pub set_buckets : Prometheus → Text → List ℕ → Outcome Exporter → Outcome Exporter
set_buckets p metric bounds (ok e) =
    if p.takes metric bounds then ok (record e { buckets = (metric, bounds) ∷ e.buckets }) else err
set_buckets p metric bounds other = other

unfoldable pub install : Prometheus → Outcome Exporter → Outcome Exporter
install p (ok e) = if p.installs e then ok e else err
install p other = other

-- The exporter that runs, if none of the steps fails.
unfoldable pub init_metrics_exporter : Prometheus → ℕ → Outcome Exporter
unfolding set_buckets install
init_metrics_exporter p port =
    let builder : Outcome Exporter =
      ok (record { http_listener = record { ip = v4 0 0 0 0; port = port }; buckets = [] }) in
    let builder =
      set_buckets p (bytes "vortex_request_duration_seconds") duration_buckets builder in
    install p (set_buckets p (bytes "vortex_ai_token_usage") token_buckets builder)

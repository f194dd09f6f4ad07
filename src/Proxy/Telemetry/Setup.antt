-- ===== src/Proxy/Telemetry/Setup.antt =====
-- `init_telemetry` of vortex-proxy/src/telemetry.rs: the settings that it passes on, with the libraries
-- opentelemetry and tracing as the arguments. The sampled share is in hundredths.
use vortex_proxy.Prelude.{ℕ, Option, none, some, Text, bytes}
use vortex_proxy.Outcome.{Outcome, ok, result, ◌>>=◌}

pub record TracerConfig : Type 0 where
  pub endpoint : Text
  pub max_queue_size : ℕ
  pub max_export_batch_size : ℕ
  pub sampled_percent : ℕ
  pub service_name : Text

unfoldable pub tracer_config : TracerConfig
tracer_config = record {
  endpoint = bytes "http://localhost:4317";
  max_queue_size = 8192;
  max_export_batch_size = 512;
  sampled_percent = 1;
  service_name = bytes "vortex-proxy";
}

-- The tracer, and the filter of the log lines: the environment's, or `info` where it has none or one
-- that does not parse.
pub record Subscriber (Tracer : Type 0) : Type 0 where
  pub tracer : Tracer
  pub env_filter : Text

unfoldable pub env_filter_of : Option Text → Text
env_filter_of none = bytes "info"
env_filter_of (some filter) = filter

module _ {Tracer : Type 0} (install_batch : TracerConfig → Option Tracer) where
  unfoldable pub init_telemetry : Option Text → Outcome (Subscriber Tracer)
  unfolding tracer_config env_filter_of
  init_telemetry rust_log = result (install_batch tracer_config) >>= λ tracer.
      ok (record { tracer = tracer; env_filter = env_filter_of rust_log })

-- ===== src/Proxy/Telemetry/Tests.antt =====
-- The unit tests of telemetry.rs, and the theorem at their header.
use vortex_proxy.Prelude.{◌≡◌, ◌≢◌, ◌↔◌, refl, none, some, All, Text, bytes, [], arith, sym}
use vortex_proxy.DashMap.{DashMap}
use vortex_proxy.DashMap.Assoc.{assoc}
use vortex_proxy.Proxy.Tls.{Text-discrete}
use vortex_proxy.Proxy.Telemetry.Propagation.{
  Headers, inject_trace_context, extract_get, span_fields, inject_trace_context-extract,
}
use vortex_proxy.Proxy.Telemetry.{W3CTraceParent, split, checked, parse_w3c_traceparent}
use vortex_proxy.Proxy.Telemetry.Split.{IsPiece}
use vortex_proxy.Proxy.Telemetry.RoundTrip.{fields, print, IsSized, parse_w3c_traceparent-print}

abbrev header : Text
header = bytes "00-4bf92f3577b34da6a3ce929d0e0e4736-00f067aa0ba902b7-01"

abbrev trace_parent : W3CTraceParent
trace_parent = record {
  version = bytes "00";
  trace_id = bytes "4bf92f3577b34da6a3ce929d0e0e4736";
  parent_id = bytes "00f067aa0ba902b7";
  trace_flags = bytes "01";
}

valid : parse_w3c_traceparent header ≡ some trace_parent
unfolding parse_w3c_traceparent split checked
valid = refl

invalid :
    (parse_w3c_traceparent (bytes "invalid") ≡ none)
    × (parse_w3c_traceparent (bytes "00-short-id-01") ≡ none)
unfolding parse_w3c_traceparent split checked
invalid = (refl, refl)

parse_w3c_traceparent-print_example :
    (parse_w3c_traceparent header ≡ some trace_parent)
    ↔ ((header ≡ print trace_parent) × All IsPiece (fields trace_parent) × IsSized trace_parent)
parse_w3c_traceparent-print_example = parse_w3c_traceparent-print header trace_parent

abbrev map : DashMap Text Text Text-discrete
map = assoc Text-discrete

http-get-insert :
    (m : map.Map) (key n v : Text) → some key ≡ some n → map.get (map.insert m n v) key ≡ some v
http-get-insert m key n v e = ground (arith, e, map.get-insert_self m key v)

http-get-insert_ne :
    (m : map.Map) (key n other v : Text)
    → some key ≡ some n
    → other ≢ n
    → map.get (map.insert m other v) key ≡ map.get m key
http-get-insert_ne m key n other v e apart =
    ground (arith, e, map.get-insert_ne m other key v (λ (q : key ≡ other). apart (cc)))

-- Every key is a name in lower case here, and every text a value.
abbrev http : Headers
http = record {
  Map = map.Map;
  Name = Text;
  Value = Text;
  name_of = λ key. some key;
  value_of = λ text. some text;
  to_str = λ v. some v;
  get = map.get;
  keys = λ m. [];
  insert = map.insert;
  to_str-value_of = λ text v e visible. sym e;
  get-insert = http-get-insert;
  get-insert_ne = http-get-insert_ne;
}

pieces_and_sizes :
    (header ≡ print trace_parent) × All IsPiece (fields trace_parent) × IsSized trace_parent
pieces_and_sizes = (parse_w3c_traceparent-print header trace_parent).0 valid

inject_trace_context-extract_example :
    (extract_get http
        (inject_trace_context http map.empty (span_fields http trace_parent (bytes "vortex=1")))
        (bytes "traceparent")
      ≡ some (print trace_parent))
    × (parse_w3c_traceparent (print trace_parent) ≡ some trace_parent)
    × (extract_get http
          (inject_trace_context http map.empty (span_fields http trace_parent (bytes "vortex=1")))
          (bytes "tracestate")
        ≡ some (bytes "vortex=1"))
    × (extract_get http
          (inject_trace_context http map.empty (span_fields http trace_parent (bytes "vortex=1")))
          (bytes "host")
        ≡ extract_get http map.empty (bytes "host"))
inject_trace_context-extract_example =
    inject_trace_context-extract http map.empty trace_parent (bytes "vortex=1")
      (bytes "traceparent") (bytes "tracestate") (print trace_parent) (bytes "vortex=1") refl refl
      (λ e. cc) refl refl refl refl pieces_and_sizes.1 pieces_and_sizes.2 (bytes "host")
      (bytes "host") refl (λ e. cc) (λ e. cc)

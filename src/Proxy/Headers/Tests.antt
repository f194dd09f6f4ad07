-- ===== src/Proxy/Headers/Tests.antt =====
-- The header parser at concrete headers. A header value is its bytes here, all of them visible ASCII.
use vortex_proxy.Prelude.{◌≡◌, refl, none, some, Text, text_eq, bytes, if◌then◌else◌}
use vortex_proxy.Proxy.Headers.{
  HeaderMap, parse_digits, parse_u64, header_text, estimated_tokens_of, extract_ai_metadata,
  request_cost,
}

program : Unit {0}
unfolding parse_digits parse_u64 header_text estimated_tokens_of extract_ai_metadata request_cost
    text_eq
program = tt

abbrev with_tokens : Text → HeaderMap Text
with_tokens tokens = record {
  get = λ name.
      if text_eq name (bytes "x-ai-model")
      then some (bytes "gpt-4")
      else (if text_eq name (bytes "x-ai-estimated-tokens") then some tokens else none);
  to_str = λ value. some value;
}

costs :
    (request_cost (with_tokens (bytes "150")) ≡ 150)
    × (request_cost (with_tokens (bytes "+0")) ≡ 0)
    × (request_cost (with_tokens (bytes "-1")) ≡ 1)
    × (request_cost (with_tokens (bytes "18446744073709551616")) ≡ 1)
unfolding program
costs = (refl, refl, refl, refl)

-- ===== src/Proxy/Headers.antt =====
-- `extract_ai_metadata` of vortex-proxy/src/server.rs. The header map is of the crate http: `get` and
-- `to_str` are arguments. The parser of `u64` is that of the standard library.
pub mod Tokens
mod Tests
use vortex_proxy.Prelude.{
  ℕ, ◌+◌, ◌*◌, ◌-◌, ltb, leb, Bool, true, false, Option, none, some, List, [], ◌∷◌, if◌then◌else◌,
  ◌&&◌, ◌==◌, Text, bytes, u64_mod,
}
use vortex_proxy.Core.Backend.{AiMetadata}

pub record HeaderMap (Value : Type 0) : Type 0 where
  pub get : Text → Option Value
  pub to_str : Value → Option Text

abbrev pub is_digit : ℕ → Bool
is_digit b = leb 48 b && leb b 57

-- The digits behind those whose number is `acc`; none on another byte, and where the number leaves
-- 64 bits.
unfoldable pub parse_digits : ℕ → Text → Option ℕ
parse_digits acc [] = some acc
parse_digits acc (b ∷ s) =
    let rest = parse_digits (acc * 10 + (b - 48)) s in
    if is_digit b && ltb (acc * 10 + (b - 48)) u64_mod then rest else none

-- `str::parse::<u64>`: digits, at least one, with or without a plus sign before them.
unfoldable pub parse_u64 : Text → Option ℕ
unfolding parse_digits
parse_u64 [] = none
parse_u64 (b ∷ []) = parse_digits 0 (b ∷ [])
parse_u64 (b ∷ c ∷ s) = if b == 43 then parse_digits 0 (c ∷ s) else parse_digits 0 (b ∷ c ∷ s)

unfoldable pub estimated_tokens_of : Option Text → ℕ
unfolding parse_u64
estimated_tokens_of none = 1
estimated_tokens_of (some text) = elim (parse_u64 text) [ none ↦ 1 | some tokens ↦ tokens ]

module _ {Value : Type 0} (headers : HeaderMap Value) where
  -- `get(name)` and then `to_str`.
  unfoldable pub header_text : Text → Option Text
  header_text name = elim (headers.get name) [ none ↦ none | some value ↦ headers.to_str value ]

  unfoldable pub extract_ai_metadata : Option AiMetadata
  unfolding header_text estimated_tokens_of
  extract_ai_metadata = elim (header_text (bytes "x-ai-model")) [
    | none ↦ none
    | some model ↦ some (record {
      model = model;
      estimated_tokens = estimated_tokens_of (header_text (bytes "x-ai-estimated-tokens"));
      semantic_hash = header_text (bytes "x-ai-semantic-hash");
    })
  ]

  -- The cost of a request in `forward_request`.
  unfoldable pub request_cost : ℕ
  unfolding extract_ai_metadata
  request_cost = elim extract_ai_metadata [ none ↦ 1 | some metadata ↦ metadata.estimated_tokens ]

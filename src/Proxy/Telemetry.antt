-- ===== src/Proxy/Telemetry.antt =====
-- The `traceparent` parser of vortex-proxy/src/telemetry.rs. A `&str` is its bytes, and `len` counts
-- them. `str::split` on a character gives the pieces between its occurrences: one piece at least.
pub mod Split
pub mod RoundTrip
pub mod Propagation
pub mod Setup
mod Tests
use vortex_proxy.Prelude.{
  ℕ, Bool, true, false, Option, none, some, List, [], ◌∷◌, length, if◌then◌else◌, ◌||◌, not, ◌==◌,
  Text,
}

pub record W3CTraceParent : Type 0 where
  pub version : Text
  pub trace_id : Text
  pub parent_id : Text
  pub trace_flags : Text

abbrev pub dash : ℕ
dash = 45

-- A byte before the pieces of the rest belongs to the first of them.
abbrev pub extend : ℕ → List Text → List Text
extend b [] = (b ∷ []) ∷ []
extend b (piece ∷ pieces) = (b ∷ piece) ∷ pieces

unfoldable pub split : Text → List Text
split [] = [] ∷ []
split (b ∷ s) = let rest = split s in if b == dash then [] ∷ rest else extend b rest

-- The tests on the lengths, after four calls of `next` have given a piece and the fifth has not.
unfoldable pub checked : Text → Text → Text → Text → Option W3CTraceParent
checked version trace_id parent_id trace_flags =
    if not (length version == 2)
      || not (length trace_id == 32)
      || not (length parent_id == 16)
      || not (length trace_flags == 2)
    then none
    else some (record {
      version = version;
      trace_id = trace_id;
      parent_id = parent_id;
      trace_flags = trace_flags;
    })

abbrev pub from_pieces : List Text → Option W3CTraceParent
from_pieces (version ∷ trace_id ∷ parent_id ∷ trace_flags ∷ []) =
    checked version trace_id parent_id trace_flags
from_pieces _ = none

unfoldable pub parse_w3c_traceparent : Text → Option W3CTraceParent
unfolding split checked
parse_w3c_traceparent header_value = from_pieces (split header_value)

-- ===== src/Proxy/Telemetry/RoundTrip.antt =====
-- `parse_w3c_traceparent` against the format that its comment gives: the four fields with dashes
-- between them.
use vortex_proxy.Prelude.{
  ◌≡◌, ◌↔◌, ◌⊎◌, inl, inr, Option-cases, refl, sym, ap, ◌∙◌, subst, arith, none, some, List, [],
  ◌∷◌, All, length, Text,
}
use vortex_proxy.Proxy.Telemetry.{
  W3CTraceParent, split, checked, from_pieces, parse_w3c_traceparent,
}
use vortex_proxy.Proxy.Telemetry.Split.{
  IsPiece, IsSplit, join, split-IsSplit, join-split, split-join,
}

abbrev pub fields : W3CTraceParent → List Text
fields t = t.version ∷ t.trace_id ∷ t.parent_id ∷ t.trace_flags ∷ []

-- `version-trace_id-parent_id-trace_flags`
abbrev pub print : W3CTraceParent → Text
print t = join (fields t)

pub record IsSized (t : W3CTraceParent) : Type 0 where
  pub version : length t.version ≡ 2
  pub trace_id : length t.trace_id ≡ 32
  pub parent_id : length t.parent_id ≡ 16
  pub trace_flags : length t.trace_flags ≡ 2

module _ (v i p f : Text) where
  abbrev parsed : W3CTraceParent
  parsed = record { version = v; trace_id = i; parent_id = p; trace_flags = f }

  checked-cases : (checked v i p f ≡ none) ⊎ ((checked v i p f ≡ some parsed) × IsSized parsed)
  unfolding checked
  checked-cases = elim (Option-cases (checked v i p f)) [
    | inl e ↦ inl e
    | inr (t, e) ↦ inr (
      ground (arith, e),
      record {
        version = ground (arith, e);
        trace_id = ground (arith, e);
        parent_id = ground (arith, e);
        trace_flags = ground (arith, e);
      },
    )
  ]

  checked-some :
      (t : W3CTraceParent) → checked v i p f ≡ some t → (fields t ≡ v ∷ i ∷ p ∷ f ∷ []) × IsSized t
  checked-some t h = elim checked-cases [
    | inl e ↦ cc
    | inr (e, sized) ↦
        let same : parsed ≡ t = cc in
        subst (λ u. (fields u ≡ v ∷ i ∷ p ∷ f ∷ []) × IsSized u) same (refl, sized)
  ]

from_pieces-some :
    (pieces : List Text) (t : W3CTraceParent)
    → from_pieces pieces ≡ some t
    → (fields t ≡ pieces) × IsSized t
from_pieces-some [] t h = cc
from_pieces-some (v ∷ []) t h = cc
from_pieces-some (v ∷ i ∷ []) t h = cc
from_pieces-some (v ∷ i ∷ p ∷ []) t h = cc
from_pieces-some (v ∷ i ∷ p ∷ f ∷ []) t h = checked-some v i p f t h
from_pieces-some (v ∷ i ∷ p ∷ f ∷ x ∷ xs) t h = cc

from_pieces-fields : (t : W3CTraceParent) → IsSized t → from_pieces (fields t) ≡ some t
unfolding checked
from_pieces-fields t s = ground (arith, s.version, s.trace_id, s.parent_id, s.trace_flags)

-- A header parses to a trace parent exactly when it is the print of it, its fields have no dash,
-- and their lengths are 2, 32, 16 and 2.
pub parse_w3c_traceparent-print :
    (header : Text) (t : W3CTraceParent)
    → (parse_w3c_traceparent header ≡ some t)
      ↔ ((header ≡ print t) × All IsPiece (fields t) × IsSized t)
unfolding parse_w3c_traceparent
parse_w3c_traceparent-print header t = (
  λ h.
      let (e, sized) = from_pieces-some (split header) t h in
      (
        sym (join-split header) ∙ ap join (sym e),
        subst IsSplit (sym e) (split-IsSplit header),
        sized,
      ),
  λ (e, pieces, sized).
      ap (λ s. from_pieces (split s)) e
      ∙ ap from_pieces (split-join (fields t) pieces)
      ∙ from_pieces-fields t sized,
)

-- ===== src/Proxy/Telemetry/Propagation.antt =====
-- The injector of vortex-proxy/src/telemetry.rs and the extractor of server.rs, which carry a trace
-- context from one proxy to the next. A header map is of the crate http, whose laws are in `Headers`;
-- which fields a context has is for the propagator of opentelemetry to say.
use vortex_proxy.Prelude.{
  ◌≡◌, ◌≢◌, refl, sym, ◌∙◌, leb, ◌==◌, ◌&&◌, ◌||◌, Bool, true, Option, none, some, List, [], ◌∷◌,
  Text, bytes, All, arith, Option-cases, inl, inr,
}
use vortex_proxy.Proxy.Telemetry.{W3CTraceParent, parse_w3c_traceparent}
use vortex_proxy.Proxy.Telemetry.Split.{IsPiece}
use vortex_proxy.Proxy.Telemetry.RoundTrip.{fields, print, IsSized, parse_w3c_traceparent-print}

-- The bytes that `to_str` allows: a tab, and 32 to 126.
abbrev pub is_visible : Text → Bool
is_visible [] = true
is_visible (b ∷ s) = (leb 32 b && leb b 126 || b == 9) && is_visible s

pub record Headers : Type 1 where
  pub Map : Type 0
  pub Name : Type 0
  pub Value : Type 0
  -- `HeaderName::from_bytes`, by which `get` reads its key too
  pub name_of : Text → Option Name
  -- `HeaderValue::from_str`
  pub value_of : Text → Option Value
  pub to_str : Value → Option Text
  pub get : Map → Text → Option Value
  pub keys : Map → List Text
  pub insert : Map → Name → Value → Map
  pub to_str-value_of :
      (text : Text) (v : Value)
      → value_of text ≡ some v
      → is_visible text ≡ true
      → to_str v ≡ some text
  pub get-insert :
      (m : Map) (key : Text) (n : Name) (v : Value)
      → name_of key ≡ some n
      → get (insert m n v) key ≡ some v
  pub get-insert_ne :
      (m : Map) (key : Text) (n other : Name) (v : Value)
      → name_of key ≡ some n
      → other ≢ n
      → get (insert m other v) key ≡ get m key

module _ (H : Headers) where
  -- `HeaderInjector::set`
  unfoldable pub set : H.Map → Text → Text → H.Map
  set headers key value = elim (H.name_of key) [
    | none ↦ headers
    | some name ↦ elim (H.value_of value) [ none ↦ headers | some val ↦ H.insert headers name val ]
  ]

  -- `inject_trace_context`, for the fields that the propagator sets of a context.
  unfoldable pub inject_trace_context : H.Map → List (Text × Text) → H.Map
  unfolding set
  inject_trace_context headers [] = headers
  inject_trace_context headers ((key, value) ∷ context) =
      inject_trace_context (set headers key value) context

  -- `HeaderExtractor::get`
  unfoldable pub extract_get : H.Map → Text → Option Text
  extract_get headers key = elim (H.get headers key) [ none ↦ none | some v ↦ H.to_str v ]

  -- `HeaderExtractor::keys`
  unfoldable pub extract_keys : H.Map → List Text
  extract_keys headers = H.keys headers

  extract_get-set :
      (headers : H.Map) (key value : Text) (n : H.Name) (v : H.Value)
      → H.name_of key ≡ some n
      → H.value_of value ≡ some v
      → is_visible value ≡ true
      → extract_get (set headers key value) key ≡ some value
  unfolding extract_get set
  extract_get-set headers key value n v named valued visible = ground (
    arith,
    named,
    valued,
    H.get-insert headers key n v named,
    H.to_str-value_of value v valued visible,
  )

  extract_get-set_ne :
      (headers : H.Map) (key other value : Text) (n m : H.Name)
      → H.name_of key ≡ some n
      → H.name_of other ≡ some m
      → m ≢ n
      → extract_get (set headers other value) key ≡ extract_get headers key
  unfolding extract_get set
  extract_get-set_ne headers key other value n m named other_named apart =
      elim (Option-cases (H.value_of value)) [
        | inl e ↦ ground (arith, other_named, e)
        | inr (v, e) ↦ ground (arith, other_named, e, H.get-insert_ne headers key n m v named apart)
      ]

  -- What `inject_trace_context` writes for a span, whose trace state is `state`.
  abbrev pub span_fields : W3CTraceParent → Text → List (Text × Text)
  span_fields t state = (bytes "traceparent", print t) ∷ (bytes "tracestate", state) ∷ []

  -- A span whose fields have the lengths of a trace parent and no dash, and whose texts a header can
  -- carry, comes through: the next proxy extracts the same trace parent and trace state from the headers
  -- that this one has injected them into, whatever was in them, the trace parent parses to the span's
  -- fields, and every other header is as it was.
  pub inject_trace_context-extract :
      (headers : H.Map) (t : W3CTraceParent) (state : Text) (n m : H.Name) (v w : H.Value)
      → H.name_of (bytes "traceparent") ≡ some n
      → H.name_of (bytes "tracestate") ≡ some m
      → n ≢ m
      → H.value_of (print t) ≡ some v
      → H.value_of state ≡ some w
      → is_visible (print t) ≡ true
      → is_visible state ≡ true
      → All IsPiece (fields t)
      → IsSized t
      → (key : Text) (k : H.Name) → H.name_of key ≡ some k
      → n ≢ k
      → m ≢ k
      → (extract_get (inject_trace_context headers (span_fields t state)) (bytes "traceparent")
          ≡ some (print t))
        × (parse_w3c_traceparent (print t) ≡ some t)
        × (extract_get (inject_trace_context headers (span_fields t state)) (bytes "tracestate")
            ≡ some state)
        × (extract_get (inject_trace_context headers (span_fields t state)) key
            ≡ extract_get headers key)
  unfolding inject_trace_context
  inject_trace_context-extract headers t state n m v w named_n named_m apart valued_v valued_w
        visible_v visible_w pieces sized key k named_k n_k m_k =
      let first = set headers (bytes "traceparent") (print t) in
      (
        extract_get-set_ne first (bytes "traceparent") (bytes "tracestate") state n m named_n
              named_m (λ e. apart (sym e))
            ∙ extract_get-set headers (bytes "traceparent") (print t) n v named_n valued_v
                visible_v,
        (parse_w3c_traceparent-print (print t) t).1 (refl, pieces, sized),
        extract_get-set first (bytes "tracestate") state m w named_m valued_w visible_w,
        extract_get-set_ne first key (bytes "tracestate") state k m named_k named_m m_k
            ∙ extract_get-set_ne headers key (bytes "traceparent") (print t) k n named_k named_n
                n_k,
      )

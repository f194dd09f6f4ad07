-- ===== src/Filters/ProxyWasm/Panics.antt =====
-- When a guest makes a host function of host.rs panic.
use vortex_proxy.Prelude.{
  ℕ, ◌≤◌, ◌<◌, ◌^◌, ◌≡◌, ◌↔◌, refl, arith, Bool, true, false, Option, none, some, if◌then◌else◌,
  Text, ltb,
}
use vortex_proxy.Filters.ProxyWasm.{
  Guest, HostEnvironment, HostCall, returned, panicked, as_usize, fits_vec, Fetched, fetched, ended,
  fetch, checked_utf8, log_fetched, look_up_fetched, found, proxy_log, proxy_get_header_map_value,
}

abbrev pub has_memory : {Memory : Type 0} → Option Memory → Bool
has_memory none = false
has_memory (some memory) = true

abbrev is_panic : HostCall → Bool
is_panic panicked = true
is_panic (returned code) = false

fits_vec-as_usize : (word : ℕ) → word < 2 ^ 32 → fits_vec (as_usize word) ≡ ltb word (2 ^ 31)
unfolding fits_vec as_usize
fits_vec-as_usize word h = ground arith

module _ {Memory E : Type 0} (guest : Guest Memory) (host : HostEnvironment E) where
  abbrev ends_in_panic : Fetched guest → Bool
  ends_in_panic (fetched text) = false
  ends_in_panic (ended call) = is_panic call

  checked-calm : (buffer : Option Text) → ends_in_panic (checked_utf8 guest buffer) ≡ false
  checked-calm none = refl
  checked-calm (some buffer) = ground arith

  fetch-panic :
      (memory : Option Memory) (data_word size_word : ℕ)
      → size_word < 2 ^ 32
      → ends_in_panic (fetch guest memory data_word size_word)
        ≡ (if ltb size_word (2 ^ 31) then false else has_memory memory)
  unfolding fetch
  fetch-panic none data_word size_word h = ground arith
  fetch-panic (some memory) data_word size_word h = ground (
    arith,
    fits_vec-as_usize size_word h,
    checked-calm (guest.read memory (as_usize data_word) (as_usize size_word)),
  )

  log-panic :
      (env : E) (level : ℕ) (f : Fetched guest)
      → is_panic (log_fetched guest host env level f).1 ≡ ends_in_panic f
  log-panic env level (fetched text) = refl
  log-panic env level (ended call) = refl

  found-calm : (value : Option Text) → is_panic (found guest host value) ≡ false
  found-calm none = refl
  found-calm (some value) = refl

  look_up-panic :
      (env : E) (map_type : ℕ) (f : Fetched guest)
      → is_panic (look_up_fetched guest host env map_type f) ≡ ends_in_panic f
  look_up-panic env map_type (fetched key) = found-calm (host.get_header_map_value env map_type key)
  look_up-panic env map_type (ended call) = refl

  is_panic_iff : (c : HostCall) → (c ≡ panicked) ↔ (is_panic c ≡ true)
  is_panic_iff (returned code) = (λ h. cc, λ h. cc)
  is_panic_iff panicked = (λ h. refl, λ h. refl)

  -- Either host function that reads a text panics exactly when the guest has a memory and passes a
  -- negative size.
  pub proxy_wasm-panicked :
      (memory : Option Memory) (env : E) (word data_word size_word : ℕ)
      → size_word < 2 ^ 32
      → (((proxy_log guest host memory env word data_word size_word).1 ≡ panicked)
          ↔ ((has_memory memory ≡ true) × (2 ^ 31 ≤ size_word)))
        × ((proxy_get_header_map_value guest host memory env word data_word size_word ≡ panicked)
            ↔ ((has_memory memory ≡ true) × (2 ^ 31 ≤ size_word)))
  unfolding proxy_log proxy_get_header_map_value
  proxy_wasm-panicked memory env word data_word size_word h =
      let f = fetch guest memory data_word size_word in
      let fetch_panics = fetch-panic memory data_word size_word h in
      let log_panics = log-panic env word f in
      let look_up_panics = look_up-panic env word f in
      let (log_is, log_of) = is_panic_iff (log_fetched guest host env word f).1 in
      let (look_is, look_of) = is_panic_iff (look_up_fetched guest host env word f) in
      (
        (
          λ p. ground (arith, fetch_panics, log_panics, log_is p),
          λ (m, neg). log_of (ground (arith, fetch_panics, log_panics, m, neg)),
        ),
        (
          λ p. ground (arith, fetch_panics, look_up_panics, look_is p),
          λ (m, neg). look_of (ground (arith, fetch_panics, look_up_panics, m, neg)),
        ),
      )

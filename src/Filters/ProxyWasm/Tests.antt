-- ===== src/Filters/ProxyWasm/Tests.antt =====
-- The host functions on a guest whose memory is its bytes.
use vortex_proxy.Prelude.{
  ℕ, ◌+◌, ◌≤◌, ◌^◌, ◌≡◌, ◌↔◌, refl, arith, leb, true, none, some, [], ◌∷◌, length, if◌then◌else◌,
  Text, bytes, zero, suc,
}
use vortex_proxy.Filters.ProxyWasm.{
  Guest, HostEnvironment, result_ok, as_i32, returned, panicked, as_usize, fits_vec, fetch,
  proxy_log, proxy_get_header_map_value, cas_mismatch, internal_failure, from_i32,
}
use vortex_proxy.Filters.ProxyWasm.Panics.{has_memory, proxy_wasm-panicked}

abbrev drop : ℕ → Text → Text
drop zero s = s
drop (suc n) [] = []
drop (suc n) (b ∷ s) = drop n s

abbrev take : ℕ → Text → Text
take zero s = []
take (suc n) [] = []
take (suc n) (b ∷ s) = b ∷ take n s

abbrev guest : Guest Text
guest = record {
  read = λ memory offset size.
      if leb (offset + size) (length memory) then some (take size (drop offset memory)) else none;
  is_utf8 = λ s. true;
}

-- It counts the messages, and has one header.
abbrev host : HostEnvironment ℕ
host = record {
  log = λ n level message. (n + 1, result_ok);
  get_header_map_value = λ n map_type key. some (bytes "integration_test_value");
}

program : Unit {0}
unfolding as_usize fits_vec fetch proxy_log proxy_get_header_map_value from_i32
program = tt

calls :
    (proxy_log guest host (some (bytes "hello")) 0 2 1 3 ≡ (1, returned 0))
    × (proxy_log guest host (some (bytes "hello")) 0 2 3 3 ≡ (0, returned 6))
    × (proxy_log guest host none 0 2 0 1 ≡ (0, returned 10))
    × (proxy_log guest host (some (bytes "hello")) 0 2 0 0xffffffff ≡ (0, panicked))
unfolding program
calls = (refl, refl, refl, refl)

-- The conversion from i32 does not know the codes above 7.
lost_code : from_i32 (as_i32 cas_mismatch) ≡ internal_failure
unfolding program
lost_code = refl

proxy_wasm-panicked_example :
    (((proxy_log guest host (some (bytes "hello")) 0 2 0 (2 ^ 31)).1 ≡ panicked)
      ↔ ((has_memory (some (bytes "hello")) ≡ true) × (2 ^ 31 ≤ 2 ^ 31)))
    × ((proxy_get_header_map_value guest host (some (bytes "hello")) 0 2 0 (2 ^ 31) ≡ panicked)
        ↔ ((has_memory (some (bytes "hello")) ≡ true) × (2 ^ 31 ≤ 2 ^ 31)))
proxy_wasm-panicked_example =
    proxy_wasm-panicked guest host (some (bytes "hello")) 0 2 0 (2 ^ 31) (omega arith)

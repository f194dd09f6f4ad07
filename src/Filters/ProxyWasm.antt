-- ===== src/Filters/ProxyWasm.antt =====
-- vortex-filters/src/proxy_wasm/types.rs and host.rs. An i32 is its 32-bit word. The guest's memory is
-- of wasmtime and `from_utf8` of the standard library: both are in `Guest`. The text that the header
-- function prints has no part in the model.
pub mod Panics
mod Tests
use vortex_proxy.Prelude.{
  ℕ, ◌+◌, ◌-◌, ◌^◌, ◌==◌, ltb, Bool, true, false, Option, none, some, List, if◌then◌else◌, Text,
}

pub data WasmResult : Type 0 where
  result_ok not_found bad_argument serialization_failure parse_failure bad_expression : WasmResult
  invalid_memory_access empty cas_mismatch result_mismatch internal_failure : WasmResult
  broken_connection : WasmResult

-- `as i32`
abbrev pub as_i32 : WasmResult → ℕ
as_i32 result_ok = 0
as_i32 not_found = 1
as_i32 bad_argument = 2
as_i32 serialization_failure = 3
as_i32 parse_failure = 4
as_i32 bad_expression = 5
as_i32 invalid_memory_access = 6
as_i32 empty = 7
as_i32 cas_mismatch = 8
as_i32 result_mismatch = 9
as_i32 internal_failure = 10
as_i32 broken_connection = 11

unfoldable pub from_i32 : ℕ → WasmResult
from_i32 val =
    if val == 0
    then result_ok
    else (if val == 1
        then not_found
        else (if val == 2
            then bad_argument
            else (if val == 3
                then serialization_failure
                else (if val == 4
                    then parse_failure
                    else (if val == 5
                        then bad_expression
                        else (if val == 6
                            then invalid_memory_access
                            else (if val == 7 then empty else internal_failure)))))))

-- A linear memory, with what is read of it at an offset, and none out of its bounds.
pub record Guest (Memory : Type 0) : Type 0 where
  pub read : Memory → ℕ → ℕ → Option Text
  pub is_utf8 : Text → Bool

-- The trait `HostEnvironment`, for an environment whose state is an `E`.
pub record HostEnvironment (E : Type 0) : Type 0 where
  pub log : E → ℕ → Text → E × WasmResult
  pub get_header_map_value : E → ℕ → Text → Option Text

-- A host call returns a code to the guest, or panics.
pub data HostCall : Type 0 where
  returned : ℕ → HostCall
  panicked : HostCall

-- `as usize` of an i32: the sign is extended to 64 bits.
unfoldable pub as_usize : ℕ → ℕ
as_usize word = if ltb word (2 ^ 31) then word else word + (2 ^ 64 - 2 ^ 32)

-- `vec![0u8; size]` panics above `isize::MAX`; an allocation that fits is taken to succeed.
unfoldable pub fits_vec : ℕ → Bool
fits_vec size = ltb size (2 ^ 63)

module _ {Memory : Type 0} (guest : Guest Memory) where
  -- What both host functions do first: the text at a place in the guest's memory, or how the call ends.
  pub data Fetched : Type 0 where
    fetched : Text → Fetched
    ended : HostCall → Fetched

  abbrev pub checked_utf8 : Option Text → Fetched
  checked_utf8 none = ended (returned (as_i32 invalid_memory_access))
  checked_utf8 (some buffer) =
      if guest.is_utf8 buffer then fetched buffer else ended (returned (as_i32 parse_failure))

  unfoldable pub fetch : Option Memory → ℕ → ℕ → Fetched
  unfolding as_usize fits_vec
  fetch none data_word size_word = ended (returned (as_i32 internal_failure))
  fetch (some memory) data_word size_word =
      if fits_vec (as_usize size_word)
      then checked_utf8 (guest.read memory (as_usize data_word) (as_usize size_word))
      else ended panicked

  module _ {E : Type 0} (host : HostEnvironment E) where
    abbrev pub log_fetched : E → ℕ → Fetched → E × HostCall
    log_fetched env level (ended call) = (env, call)
    log_fetched env level (fetched message) =
        let (env', result) = host.log env level message in (env', returned (as_i32 result))

    unfoldable pub proxy_log : Option Memory → E → ℕ → ℕ → ℕ → E × HostCall
    unfolding fetch
    proxy_log memory env level message_data message_size =
        log_fetched env level (fetch memory message_data message_size)

    abbrev pub found : Option Text → HostCall
    found none = returned (as_i32 not_found)
    found (some value) = returned (as_i32 result_ok)

    abbrev pub look_up_fetched : E → ℕ → Fetched → HostCall
    look_up_fetched env map_type (ended call) = call
    look_up_fetched env map_type (fetched key) = found (host.get_header_map_value env map_type key)

    unfoldable pub proxy_get_header_map_value : Option Memory → E → ℕ → ℕ → ℕ → HostCall
    unfolding fetch
    proxy_get_header_map_value memory env map_type key_data key_size =
        look_up_fetched env map_type (fetch memory key_data key_size)

-- Whatever the type of the stream.
unfoldable pub proxy_continue_stream : ℕ → HostCall
proxy_continue_stream stream_type = returned (as_i32 result_ok)

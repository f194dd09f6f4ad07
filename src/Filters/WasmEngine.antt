-- ===== src/Filters/WasmEngine.antt =====
-- vortex-filters/src/wasm_engine.rs. The crate wasmtime is the interface `Wasmtime`: `Data` is what a
-- store holds, which the host functions and so every run of the guest may change. A trap is a failure
-- like the others. The engine has no fuel and no deadline, so that a guest may run forever, and its
-- caller with it. An i32 is its 32-bit word.
use vortex_proxy.Outcome.{Outcome, unwrap_or_panic}
use vortex_proxy.Prelude.{ℕ, List, [], ◌∷◌, Option, none, some, Text, bytes}

-- How a run of a guest ends, if it does.
pub data Run (A : Type 0) : Type 0 where
  finished : A → Run A
  forever : Run A

pub record Wasmtime (Data : Type 0) : Type 1 where
  pub Module : Type 0
  pub Linker : Type 0
  pub Instance : Type 0
  pub Func : Type 0
  -- `Module::new`
  pub compile : Text → Option Module
  -- `Linker::new` and `Linker::func_wrap`, by the names of the module and the function
  pub new_linker : Linker
  pub func_wrap : Linker → Text → Text → Option Linker
  -- `Instance::new` with no imports, and `Linker::instantiate`: they run the guest's start function.
  pub new_instance : Module → Data → Run (Data × Option Instance)
  pub instantiate : Linker → Module → Data → Run (Data × Option Instance)
  -- `get_typed_func`, by the number of i32 parameters; the result is an i32
  pub typed_func : Instance → Text → ℕ → Option Func
  pub call : Func → List ℕ → Data → Run (Data × Option ℕ)

-- `WasmEngine::new` and `default`: an engine with a pool of 1000 instances, or a panic.
unfoldable pub new : {Engine : Type 0} → (ℕ → Option Engine) → Outcome Engine
new engine_new = unwrap_or_panic (engine_new 1000)

module _ {Data : Type 0} (W : Wasmtime Data) where
  -- A call of an export that has to be there.
  unfoldable pub call_export :
      Text → List ℕ → ℕ → Run (Data × Option W.Instance) → Run (Data × Option ℕ)
  call_export name args arity forever = forever
  call_export name args arity (finished (store, none)) = finished (store, none)
  call_export name args arity (finished (store, some instance_)) =
      elim (W.typed_func instance_ name arity) [
        | none ↦ finished (store, none)
        | some execute ↦ W.call execute args store
      ]

  -- The store's data and the code of the filter, or none for an error.
  unfoldable pub execute_filter : Data → Text → Run (Data × Option ℕ)
  unfolding call_export
  execute_filter store wasm_bytes = elim (W.compile wasm_bytes) [
    | none ↦ finished (store, none)
    | some compiled ↦ call_export (bytes "execute") [] 0 (W.new_instance compiled store)
  ]

  -- `register_proxy_wasm_abi` of host.rs.
  unfoldable pub register_all : W.Linker → List Text → Option W.Linker
  register_all linker [] = some linker
  register_all linker (name ∷ names) = elim (W.func_wrap linker (bytes "env") name) [
    | none ↦ none
    | some linker' ↦ register_all linker' names
  ]

  unfoldable pub register_proxy_wasm_abi : W.Linker → Option W.Linker
  unfolding register_all
  register_proxy_wasm_abi linker =
      register_all linker (
        bytes "proxy_log" ∷ bytes "proxy_get_header_map_value" ∷ bytes "proxy_continue_stream" ∷ [])

  abbrev pub called : Run (Data × Option ℕ) → Run (Data × Option (Unit {0}))
  called forever = forever
  called (finished (env, none)) = finished (env, none)
  called (finished (env, some action)) = finished (env, some tt)

  -- The handler of the headers, where the module exports it with this type. The action that it
  -- returns is dropped.
  unfoldable pub on_request_headers :
      Run (Data × Option W.Instance) → Run (Data × Option (Unit {0}))
  on_request_headers forever = forever
  on_request_headers (finished (env, none)) = finished (env, none)
  on_request_headers (finished (env, some instance_)) =
      elim (W.typed_func instance_ (bytes "proxy_on_request_headers") 3) [
        | none ↦ finished (env, some tt)
        | some handler ↦ called (W.call handler (1 ∷ 2 ∷ 3 ∷ []) env)
      ]

  unfoldable pub execute_proxy_wasm : Data → Text → Run (Data × Option (Unit {0}))
  unfolding register_proxy_wasm_abi on_request_headers
  execute_proxy_wasm env wasm_bytes = elim (W.compile wasm_bytes) [
    | none ↦ finished (env, none)
    | some compiled ↦ elim (register_proxy_wasm_abi W.new_linker) [
      | none ↦ finished (env, none)
      | some linker ↦ on_request_headers (W.instantiate linker compiled env)
    ]
  ]

-- ===== src/Proxy/Main/Cores.antt =====
-- The worker threads of `main`: how many there are, and the core to which each is pinned. A core is a
-- number, and `get_core_ids` is an argument.
use mathlib.Core.List.{append_assoc}
use native.Mathlib.Nat.{mod-eq_of_lt}
use vortex_proxy.Prelude.{
  ℕ, zero, suc, ◌+◌, ◌%◌, ◌<◌, ◌≡◌, refl, List, [], ◌∷◌, Option, none, some, sym, ◌∙◌, subst, ◌++◌,
  length-append, arith, length, get_elem?, ltb, if◌then◌else◌, incr64, u64_mod,
}

unfoldable pub worker_threads : List ℕ → ℕ
worker_threads core_ids = if ltb 0 (length core_ids) then length core_ids else 4

-- The counter after the start of a thread, and the core that it is set to. `core_ids[..]` panics where
-- this is none and there are cores.
unfoldable pub on_thread_start : List ℕ → ℕ → ℕ × Option ℕ
on_thread_start core_ids core_idx =
    if ltb 0 (length core_ids)
    then (incr64 core_idx, get_elem? core_ids (core_idx % length core_ids))
    else (core_idx, none)

-- The cores of the threads that are started, in their order.
unfoldable pub start_all : List ℕ → ℕ → ℕ → List (Option ℕ)
unfolding on_thread_start
start_all core_ids core_idx zero = []
start_all core_ids core_idx (suc n) =
    let (core_idx', core) = on_thread_start core_ids core_idx in
    core ∷ start_all core_ids core_idx' n

-- Each of these cores, in this order.
abbrev pub somes : List ℕ → List (Option ℕ)
somes [] = []
somes (x ∷ xs) = some x ∷ somes xs

get_elem?-length :
    (pre : List ℕ) (x : ℕ) (rest : List ℕ) → get_elem? (pre ++ x ∷ rest) (length pre) ≡ some x
get_elem?-length [] x rest = refl
get_elem?-length (y ∷ pre) x rest = get_elem?-length pre x rest

-- The core of the next thread, where those of `pre` are taken.
on_thread_start-next :
    (pre : List ℕ) (x : ℕ) (rest : List ℕ)
    → length (pre ++ x ∷ rest) < u64_mod
    → on_thread_start (pre ++ x ∷ rest) (length pre) ≡ (length pre + 1, some x)
unfolding on_thread_start
on_thread_start-next pre x rest fits =
    let below : length pre < length (pre ++ x ∷ rest) =
      omega (arith, length-append pre (x ∷ rest)) in
    ground (arith, length-append pre (x ∷ rest), get_elem?-length pre x rest, mod-eq_of_lt below)

start_all-next :
    (core_ids pre rest : List ℕ)
    → core_ids ≡ pre ++ rest
    → length core_ids < u64_mod
    → start_all core_ids (length pre) (length rest) ≡ somes rest
unfolding start_all
start_all-next core_ids pre [] e fits = refl
start_all-next core_ids pre (x ∷ rest) e fits =
    let e' : core_ids ≡ (pre ++ x ∷ []) ++ rest = e ∙ sym (append_assoc pre (x ∷ []) rest) in
    let next : on_thread_start core_ids (length pre) ≡ (length pre + 1, some x) =
      rw e (on_thread_start-next pre x rest (subst (λ l. length l < u64_mod) e fits)) in
    ground (
      arith,
      next,
      start_all-next core_ids (pre ++ x ∷ []) rest e' fits,
      length-append pre (x ∷ []),
    )

-- Where the machine tells its cores, there are as many worker threads as cores, and each is pinned to a
-- core of its own, in the order in which the threads start; no index is out of range.
pub start_all-pins :
    (core_ids : List ℕ)
    → 0 < length core_ids
    → length core_ids < u64_mod
    → start_all core_ids 0 (worker_threads core_ids) ≡ somes core_ids
unfolding worker_threads
start_all-pins core_ids some_cores fits =
    ground (arith, start_all-next core_ids [] core_ids refl fits)

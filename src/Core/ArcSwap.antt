-- ===== src/Core/ArcSwap.antt =====
-- The crate arc_swap: a cell that holds an `Arc` and is replaced as a whole. What routing.rs relies
-- on is that a load returns what was stored last.
use vortex_proxy.Prelude.{◌≡◌, refl}

pub record ArcSwap (A : Type 0) : Type 1 where
  pub Cell : Type 0
  pub from_pointee : A → Cell
  pub load : Cell → A
  pub store : Cell → A → Cell
  pub load-from_pointee : (a : A) → load (from_pointee a) ≡ a
  pub load-store : (c : Cell) (a : A) → load (store c a) ≡ a

-- A plain cell.
abbrev pub plain : (A : Type 0) → ArcSwap A
plain A = record {
  Cell = A;
  from_pointee = λ a. a;
  load = λ c. c;
  store = λ _ a. a;
  load-from_pointee = λ _. refl;
  load-store = λ _ _. refl;
}

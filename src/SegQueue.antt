-- ===== src/SegQueue.antt =====
-- The crate crossbeam_queue's `SegQueue`, as an interface: an unbounded first-in first-out queue.
use vortex_proxy.Prelude.{◌≡◌, refl, Option, none, some, List, [], ◌∷◌, ◌++◌, arith}

pub record SegQueue (A : Type 0) : Type 1 where
  pub Queue : Type 0
  pub new : Queue
  pub push : Queue → A → Queue
  pub pop : Queue → Option (A × Queue)
  -- Oldest first. The program cannot see this; the laws speak of it.
  pub contents : Queue → List A
  pub contents-new : contents new ≡ []
  pub contents-push : (q : Queue) (a : A) → contents (push q a) ≡ contents q ++ a ∷ []
  pub pop_nil : (q : Queue) → contents q ≡ [] → pop q ≡ none
  pub pop_cons :
      (q : Queue) (a : A) (rest : List A)
      → contents q ≡ a ∷ rest
      → (r : Queue) × (pop q ≡ some (a, r)) × (contents r ≡ rest)

abbrev pub uncons : {A : Type 0} → List A → Option (A × List A)
uncons [] = none
uncons (a ∷ rest) = some (a, rest)

pub uncons_nil : {A : Type 0} (q : List A) → q ≡ [] → uncons q ≡ none
uncons_nil [] e = refl
uncons_nil (a ∷ rest) e = cc

pub uncons_cons :
    {A : Type 0} (q : List A) (a : A) (rest : List A)
    → q ≡ a ∷ rest
    → (r : List A) × (uncons q ≡ some (a, r)) × (r ≡ rest)
uncons_cons [] a rest e = cc
uncons_cons (x ∷ xs) a rest e = (xs, ground arith, ground arith)

-- A list, oldest first.
abbrev pub listed : (A : Type 0) → SegQueue A
listed A = record {
  Queue = List A;
  new = [];
  push = λ q a. q ++ a ∷ [];
  pop = uncons;
  contents = λ q. q;
  contents-new = refl;
  contents-push = λ _ _. refl;
  pop_nil = uncons_nil;
  pop_cons = uncons_cons;
}

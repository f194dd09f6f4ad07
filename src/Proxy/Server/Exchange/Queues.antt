-- ===== src/Proxy/Server/Exchange/Queues.antt =====
-- Counting connections in the queues of the pool.
use vortex_proxy.Prelude.{
  ℕ, ◌+◌, ◌≤◌, ◌≢◌, sym, subst, Bool, true, false, Option, none, some, Bool-cases, inl, inr, List,
  [], ◌∷◌, ◌++◌, All, All-append, total, total-append, if◌then◌else◌, ◌==◌, arith, head?,
}
use vortex_proxy.Net.{SocketAddr, SocketAddr-discrete}
use vortex_proxy.Proxy.ConnectionPool.Pooling.{from_open, tail}

abbrev pub is : ℕ → ℕ → ℕ
is n m = if m == n then 1 else 0

-- What a pop hands out and what it leaves were in the queue.
abbrev pub one : ℕ → Option ℕ → ℕ
one n none = 0
one n (some m) = is n m

pub popped-total :
    (closed : ℕ → Bool) (n : ℕ) (l : List ℕ)
    → total (is n) (tail (from_open closed l)) + one n (head? (from_open closed l)) ≤ total (is n) l
popped-total closed n [] = omega arith
popped-total closed n (m ∷ l) = ground (arith, popped-total closed n l)

module _ (P : ℕ → Type 0) (closed : ℕ → Bool) where
  abbrev pub Handed : Option ℕ → Type 0
  Handed none = Unit
  Handed (some n) = P n

  pub popped-All :
      (l : List ℕ)
      → All P l
      → Handed (head? (from_open closed l)) × All P (tail (from_open closed l))
  popped-All [] h = (tt, tt)
  popped-All (m ∷ l) (p, h) = elim (Bool-cases (closed m)) [
    | inl e ↦ rw (e, from_open, head?, tail, All) (popped-All l h)
    | inr e ↦ rw (e, from_open, head?, tail, All) (p, h)
  ]

-- Every address is this one or another.
pub everywhere :
    (T : SocketAddr → Type 0) (addr : SocketAddr)
    → T addr
    → ((other : SocketAddr) → other ≢ addr → T other)
    → (other : SocketAddr) → T other
everywhere T addr self rest other = elim (SocketAddr-discrete other addr) [
  | yes e ↦ subst T (sym e) self
  | no ne ↦ rest other ne
]

pub pushed-total :
    (k n : ℕ) (closed : Bool) (l : List ℕ)
    → total (is k) (if closed then l else l ++ n ∷ []) ≤ total (is k) l + is k n
pushed-total k n true l = omega arith
pushed-total k n false l = omega (arith, total-append (is k) l (n ∷ []))

pub pushed-All :
    (P : ℕ → Type 0) (n : ℕ) (closed : Bool) (l : List ℕ)
    → All P l
    → P n
    → All P (if closed then l else l ++ n ∷ [])
pushed-All P n true l h p = h
pushed-All P n false l h p = All-append P l (n ∷ []) h (p, tt)

-- ===== src/DashMap.antt =====
-- The crate dashmap, as an interface: a map whose entries stand in an order that the program does not
-- choose. `retain` visits every entry once, in that order, and its closure may change a state.
pub mod Entries
pub mod Assoc
use vortex_proxy.Prelude.{ℕ, ◌≡◌, ◌≢◌, Bool, Option, none, some, List, [], length}
use Entries.{IsDistinct, find, retain_entries}

pub record DashMap (K V : Type 0) (dec : Discrete K) : Type 1 where
  pub Map : Type 0
  pub empty : Map
  pub get : Map → K → Option V
  pub insert : Map → K → V → Map
  pub remove : Map → K → Map
  pub len : Map → ℕ
  pub retain : {S : Type 0} → (K → V → S → Bool × S) → Map → S → Map × S
  -- The entries are not visible to the program; the laws speak of them.
  pub entries : Map → List (K × V)
  pub distinct : (m : Map) → IsDistinct (entries m)
  pub get-entries : (m : Map) (k : K) → get m k ≡ find dec k (entries m)
  pub len-entries : (m : Map) → len m ≡ length (entries m)
  pub get-empty : (k : K) → get empty k ≡ none
  pub get-insert_self : (m : Map) (k : K) (v : V) → get (insert m k v) k ≡ some v
  pub get-insert_ne : (m : Map) (k q : K) (v : V) → q ≢ k → get (insert m k v) q ≡ get m q
  pub get-remove_self : (m : Map) (k : K) → get (remove m k) k ≡ none
  pub get-remove_ne : (m : Map) (k q : K) → q ≢ k → get (remove m k) q ≡ get m q
  pub entries-retain :
      {S : Type 0} (f : K → V → S → Bool × S) (m : Map) (s : S)
      → entries (retain f m s).0 ≡ (retain_entries f (entries m) s).0
  pub state-retain :
      {S : Type 0} (f : K → V → S → Bool × S) (m : Map) (s : S)
      → (retain f m s).1 ≡ (retain_entries f (entries m) s).1

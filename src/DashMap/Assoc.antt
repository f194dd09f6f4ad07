-- ===== src/DashMap/Assoc.antt =====
-- Association lists without a key twice meet the interface.
use vortex_proxy.Prelude.{Bool, ◌≡◌, ◌≢◌, refl, some, List, [], ◌∷◌, arith, length}
use vortex_proxy.DashMap.{DashMap}
use vortex_proxy.DashMap.Entries.{
  IsDistinct, find, without, retain_entries, find-without_self, find-without_ne, Lacks-without_self,
  without-IsDistinct, retain_entries-IsDistinct,
}

pub record Assoc (K V : Type 0) : Type 0 where
  pub entries : List (K × V)
  pub distinct : IsDistinct entries

module _ {K V : Type 0} (dec : Discrete K) where
  pub insert_first : Assoc K V → K → V → Assoc K V
  insert_first m k v = record {
    entries = (k, v) ∷ without dec k m.entries;
    distinct = (Lacks-without_self dec k m.entries, without-IsDistinct dec k m.entries m.distinct);
  }

  pub remove_key : Assoc K V → K → Assoc K V
  remove_key m k = record {
    entries = without dec k m.entries;
    distinct = without-IsDistinct dec k m.entries m.distinct;
  }

  pub retain_in_order : {S : Type 0} → (K → V → S → Bool × S) → Assoc K V → S → Assoc K V × S
  retain_in_order f m s = (
    record {
      entries = (retain_entries f m.entries s).0;
      distinct = retain_entries-IsDistinct f m.entries s m.distinct;
    },
    (retain_entries f m.entries s).1,
  )

  pub find-insert_self :
      (m : Assoc K V) (k : K) (v : V) → find dec k (insert_first m k v).entries ≡ some v
  unfolding insert_first
  find-insert_self m k v = ground arith

  pub find-insert_ne :
      (m : Assoc K V) (k q : K) (v : V)
      → q ≢ k
      → find dec q (insert_first m k v).entries ≡ find dec q m.entries
  unfolding insert_first
  find-insert_ne m k q v n = ground (arith, find-without_ne dec k q m.entries n)

  unfoldable pub assoc : DashMap K V dec
  unfolding insert_first remove_key retain_in_order
  assoc = record {
    Map = Assoc K V;
    empty = record { entries = []; distinct = tt };
    get = λ m k. find dec k m.entries;
    insert = insert_first;
    remove = remove_key;
    len = λ m. length m.entries;
    retain = retain_in_order;
    entries = λ m. m.entries;
    distinct = λ m. m.distinct;
    get-entries = λ m k. refl;
    len-entries = λ m. refl;
    get-empty = λ k. refl;
    get-insert_self = find-insert_self;
    get-insert_ne = find-insert_ne;
    get-remove_self = λ m k. find-without_self dec k m.entries;
    get-remove_ne = λ m k q n. find-without_ne dec k q m.entries n;
    entries-retain = λ f m s. refl;
    state-retain = λ f m s. refl;
  }

-- ===== src/Core/Ewma/Concurrent.antt =====
-- The compare-exchange loop of `observe_latency` in ewma.rs, run by any number of threads at once.
-- Thread `i` observes the sample `samples i`. The log is not in the program: it lists who has
-- committed, the latest first.
use vortex_proxy.Prelude.{
  ℕ, ◌+◌, ◌≡◌, ◌⊎◌, inl, inr, refl, Bool, true, false, List, [], ◌∷◌, arith, ◌==◌, update,
  if◌then◌else◌,
}
use vortex_proxy.Float.{Float}
use vortex_proxy.Core.Ewma.{next_ewma}

-- Before the first load; before the compare-exchange, with `current_bits`; after the `break`.
pub data Pc {ℓ} (F : Type ℓ) : Type ℓ where
  started : Pc F
  loaded : F → Pc F
  committed : Pc F

pub record System {ℓ} (F : Type ℓ) : Type ℓ where
  pub ewma : F
  pub pc : ℕ → Pc F
  pub log : List ℕ

abbrev pub start {ℓ} : {F : Type ℓ} → F → System F
start initial = record { ewma = initial; pc = λ _. started; log = [] }

abbrev pub is_committed {ℓ} : {F : Type ℓ} → Pc F → Bool
is_committed started = false
is_committed (loaded _) = false
is_committed committed = true

abbrev pub times : ℕ → List ℕ → ℕ
times i [] = 0
times i (j ∷ l) = if j == i then times i l + 1 else times i l

abbrev pub once : Bool → ℕ
once b = if b then 1 else 0

module _ {ℓ} {F : Type ℓ} ⦃f : Float F⦄ (alpha : F) (samples : ℕ → F) where
  -- `compare_exchange_weak` may fail also where the bits agree; it then hands back what it read.
  pub data Step (s t : System F) : Type ℓ where
    load :
        (i : ℕ) → s.pc i ≡ started → t ≡ record s { pc = update s.pc i (loaded s.ewma) } → Step s t
    exchange :
        (i : ℕ) (current : F)
        → s.pc i ≡ loaded current
        → s.ewma ≡ current
        → t ≡ record {
          ewma = next_ewma alpha (samples i) current;
          pc = update s.pc i committed;
          log = i ∷ s.log;
        }
        → Step s t
    retry :
        (i : ℕ) (current : F)
        → s.pc i ≡ loaded current
        → t ≡ record s { pc = update s.pc i (loaded s.ewma) }
        → Step s t

  pub data Reach (s : System F) : System F → Type ℓ where
    here : Reach s s
    later : {t u : System F} → Reach s t → Step t u → Reach s u

  -- The samples of the log, observed one after the other.
  abbrev pub replay : F → List ℕ → F
  replay initial [] = initial
  replay initial (i ∷ l) = next_ewma alpha (samples i) (replay initial l)

  record Inv (initial : F) (s : System F) : Type ℓ where
    serial : s.ewma ≡ replay initial s.log
    counted : (i : ℕ) → times i s.log ≡ once (is_committed (s.pc i))

  Step-Inv : (initial : F) (s t : System F) → Step s t → Inv initial s → Inv initial t
  Step-Inv initial s t (load i at e) v = record {
    serial = ground (arith, v.serial);
    counted = λ j. ground (arith, v.counted j);
  }
  Step-Inv initial s t (exchange i current at fresh e) v = record {
    serial = ground (arith, v.serial);
    counted = λ j. ground (arith, v.counted j);
  }
  Step-Inv initial s t (retry i current at e) v = record {
    serial = ground (arith, v.serial);
    counted = λ j. ground (arith, v.counted j);
  }

  Reach-Inv : (initial : F) {s : System F} → Reach (start initial) s → Inv initial s
  Reach-Inv initial here = record { serial = refl; counted = λ i. refl }
  Reach-Inv initial (later {t = t} {u = u} r st) = Step-Inv initial t u st (Reach-Inv initial r)

  -- In whatever order the threads load, exchange and fail, the average is at every moment that of
  -- the committed samples, observed one at a time in the order of their commits; a thread that is
  -- done has committed exactly once, and no other thread has committed: no sample is lost or doubled.
  pub observe_latency-serial :
      (initial : F) {s : System F}
      → Reach (start initial) s
      → (s.ewma ≡ replay initial s.log) × ((i : ℕ) → times i s.log ≡ once (is_committed (s.pc i)))
  observe_latency-serial initial r = ((Reach-Inv initial r).serial, (Reach-Inv initial r).counted)

  Pc-cases :
      (p : Pc F) → is_committed p ≡ false → (p ≡ started) ⊎ ((current : F) × (p ≡ loaded current))
  Pc-cases started h = inl refl
  Pc-cases (loaded current) h = inr (current, refl)
  Pc-cases committed h = cc

  -- The system after thread `i` has read the average, and after it has then committed.
  abbrev pub after_read : System F → ℕ → System F
  after_read s i = record s { pc = update s.pc i (loaded s.ewma) }

  abbrev pub after_commit : System F → ℕ → System F
  after_commit s i = record {
    ewma = next_ewma alpha (samples i) s.ewma;
    pc = update (after_read s i).pc i committed;
    log = i ∷ s.log;
  }

  -- Whatever the other threads have done, a thread that has not finished needs two steps of its own
  -- and no more, if nobody comes between: one that reads the average, and one that commits.
  pub observe_latency-finishes :
      (s : System F) (i : ℕ)
      → is_committed (s.pc i) ≡ false
      → Step s (after_read s i) × Step (after_read s i) (after_commit s i)
  observe_latency-finishes s i running = (
    elim (Pc-cases (s.pc i) running) [
      | inl at ↦ load i at refl
      | inr (current, at) ↦ retry i current at refl
    ],
    exchange i s.ewma (ground arith) refl refl,
  )

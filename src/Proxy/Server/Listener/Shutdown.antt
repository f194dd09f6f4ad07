-- ===== src/Proxy/Server/Listener/Shutdown.antt =====
-- What remains of the accept loop's connections once its shutdown signal has come.
use vortex_proxy.Prelude.{
  ℕ, ◌+◌, ◌*◌, ◌≤◌, ◌≡◌, refl, ◌∙◌, true, false, ap, Bool, arith, total, total-set, length,
  length-set, List, [], ◌∷◌,
}
use vortex_proxy.Float.{Float}
use vortex_proxy.Proxy.Server.{Libraries}
use vortex_proxy.Proxy.Server.Listener.{
  Task, spawned, shaking, serving, forwarding, ended, Listener, Step, accept, accept_error,
  shutdown, start, handshake, handshake_failed, answer, forward, reply, crash, abort, close,
  probe_round, bans_change, allocate, replace_table, Reach, here, later,
}

-- How many steps a task can still make that are not requests.
abbrev pub steps_left : Task → ℕ
steps_left (spawned _) = 3
steps_left (shaking _) = 2
steps_left (serving _) = 1
steps_left (forwarding _ _ _) = 1
steps_left ended = 0

total-steps_left-le : (tasks : List Task) → total steps_left tasks ≤ 3 * length tasks
total-steps_left-le [] = omega arith
total-steps_left-le (spawned _ ∷ tasks) = omega (arith, total-steps_left-le tasks)
total-steps_left-le (shaking _ ∷ tasks) = omega (arith, total-steps_left-le tasks)
total-steps_left-le (serving _ ∷ tasks) = omega (arith, total-steps_left-le tasks)
total-steps_left-le (forwarding _ _ _ ∷ tasks) = omega (arith, total-steps_left-le tasks)
total-steps_left-le (ended ∷ tasks) = omega (arith, total-steps_left-le tasks)

module _ {ℓ} {Sender S R : Type 0} (L : Libraries Sender S R) {F : Type ℓ} where
  record Stopped (s t : Listener L F) (n : ℕ) : Type 0 where
    off : t.accepting ≡ false
    same : length t.tasks ≡ length s.tasks
    fewer : n + total steps_left t.tasks ≤ total steps_left s.tasks

module _ {ℓ} {Sender S R : Type 0} (L : Libraries Sender S R) {F : Type ℓ} ⦃f : Float F⦄
    {Response Value : Type 0} (tls : Bool) where
  -- 1 for a step of the loop or of a task, and 0 for a request or a step of another part.
  abbrev pub moves : {s t : Listener L F} → Step L Response Value tls s t → ℕ
  moves (accept _ _ _) = 1
  moves (accept_error _ _) = 1
  moves (shutdown _ _) = 1
  moves (start _ _ _ _) = 1
  moves (handshake _ _ _ _) = 1
  moves (handshake_failed _ _ _ _) = 1
  moves (answer _ _ _ _ _ _ _ _) = 0
  moves (forward _ _ _ _ _ _ _ _) = 0
  moves (crash _ _ _ _ _ _ _ _) = 1
  moves (reply _ _ _ _ _ _ _ _) = 0
  moves (abort _ _ _ _ _ _ _) = 1
  moves (close _ _ _ _) = 1
  moves (probe_round _ _) = 0
  moves (bans_change _ _) = 0
  moves (allocate _ _ _ _ _ _ _ _) = 0
  moves (replace_table _ _) = 0

  abbrev pub moves_of : {s t : Listener L F} → Reach L Response Value tls s t → ℕ
  moves_of here = 0
  moves_of (later r st) = moves_of r + moves st

  -- 1 for a connection that is accepted.
  abbrev pub accepts : {s t : Listener L F} → Step L Response Value tls s t → ℕ
  accepts (accept _ _ _) = 1
  accepts _ = 0

  abbrev pub accepts_of : {s t : Listener L F} → Reach L Response Value tls s t → ℕ
  accepts_of here = 0
  accepts_of (later r st) = accepts_of r + accepts st

  abbrev pub is_shutdown : {s t : Listener L F} → Step L Response Value tls s t → Bool
  is_shutdown (shutdown _ _) = true
  is_shutdown _ = false

  Step-accepts :
      (s t : Listener L F) (st : Step L Response Value tls s t)
      → s.accepting ≡ false
      → accepts st ≡ 0
  Step-accepts s t (accept client on e) off = cc
  Step-accepts s t (accept_error on e) off = refl
  Step-accepts s t (shutdown on e) off = refl
  Step-accepts s t (start i client at e) off = refl
  Step-accepts s t (handshake i client at e) off = refl
  Step-accepts s t (handshake_failed i client at e) off = refl
  Step-accepts s t (answer i client net req sent at out e) off = refl
  Step-accepts s t (forward i client net req b at out e) off = refl
  Step-accepts s t (reply i client net req b at out e) off = refl
  Step-accepts s t (crash i client net req b at out e) off = refl
  Step-accepts s t (abort i client net req b at e) off = refl
  Step-accepts s t (close i client at e) off = refl
  Step-accepts s t (probe_round connects e) off = refl
  Step-accepts s t (bans_change manager e) off = refl
  Step-accepts s t (allocate baseline balanced b id addr models unused e) off = refl
  Step-accepts s t (replace_table backends e) off = refl

  -- What the signal does.
  shutdown-stops :
      (s t : Listener L F) (st : Step L Response Value tls s t)
      → is_shutdown st ≡ true
      → (t.accepting ≡ false) × (t.tasks ≡ s.tasks)
  shutdown-stops s t (shutdown on e) h = (ground (arith, e), ground (arith, e))
  shutdown-stops s t (accept client on e) h = cc
  shutdown-stops s t (accept_error on e) h = cc
  shutdown-stops s t (start i client at e) h = cc
  shutdown-stops s t (handshake i client at e) h = cc
  shutdown-stops s t (handshake_failed i client at e) h = cc
  shutdown-stops s t (answer i client net req sent at out e) h = cc
  shutdown-stops s t (forward i client net req b at out e) h = cc
  shutdown-stops s t (reply i client net req b at out e) h = cc
  shutdown-stops s t (crash i client net req b at out e) h = cc
  shutdown-stops s t (abort i client net req b at e) h = cc
  shutdown-stops s t (close i client at e) h = cc
  shutdown-stops s t (probe_round connects e) h = cc
  shutdown-stops s t (bans_change manager e) h = cc
  shutdown-stops s t (allocate baseline balanced b id addr models unused e) h = cc
  shutdown-stops s t (replace_table backends e) h = cc

  Step-Stopped :
      (s t : Listener L F) (st : Step L Response Value tls s t)
      → s.accepting ≡ false
      → Stopped L s t (moves st)
  Step-Stopped s t (accept client on e) off = cc
  Step-Stopped s t (accept_error on e) off = cc
  Step-Stopped s t (shutdown on e) off = cc
  Step-Stopped s t (start i client at e) off = ground (
    arith,
    total-set steps_left s.tasks i (shaking client) at,
    total-set steps_left s.tasks i (serving client) at,
    length-set s.tasks i (shaking client),
    length-set s.tasks i (serving client),
  )
  Step-Stopped s t (handshake i client at e) off = ground (
    arith,
    total-set steps_left s.tasks i (serving client) at,
    length-set s.tasks i (serving client),
  )
  Step-Stopped s t (handshake_failed i client at e) off =
      ground (arith, total-set steps_left s.tasks i ended at, length-set s.tasks i ended)
  Step-Stopped s t (answer i client net req sent at out e) off = ground arith
  Step-Stopped s t (forward i client net req b at out e) off = ground (
    arith,
    total-set steps_left s.tasks i (forwarding client b req.path) at,
    length-set s.tasks i (forwarding client b req.path),
  )
  Step-Stopped s t (crash i client net req b at out e) off =
      ground (arith, total-set steps_left s.tasks i ended at, length-set s.tasks i ended)
  Step-Stopped s t (reply i client net req b at out e) off = ground (
    arith,
    total-set steps_left s.tasks i (serving client) at,
    length-set s.tasks i (serving client),
  )
  Step-Stopped s t (abort i client net req b at e) off =
      ground (arith, total-set steps_left s.tasks i ended at, length-set s.tasks i ended)
  Step-Stopped s t (close i client at e) off =
      ground (arith, total-set steps_left s.tasks i ended at, length-set s.tasks i ended)
  Step-Stopped s t (probe_round connects e) off = ground arith
  Step-Stopped s t (bans_change manager e) off = ground arith
  Step-Stopped s t (allocate baseline balanced b id addr models unused e) off = ground arith
  Step-Stopped s t (replace_table backends e) off = ground arith

  Reach-Stopped :
      (s : Listener L F) {t : Listener L F} (r : Reach L Response Value tls s t)
      → s.accepting ≡ false
      → Stopped L s t (moves_of r)
  Reach-Stopped s here off = record { off = off; same = refl; fewer = omega arith }
  Reach-Stopped s (later {t = t} {u = u} r st) off =
      let before = Reach-Stopped s r off in
      let after = Step-Stopped t u st before.off in
      record {
        off = after.off;
        same = after.same ∙ before.same;
        fewer = omega (arith, before.fewer, after.fewer);
      }

  Reach-accepts :
      (s : Listener L F) {t : Listener L F} (r : Reach L Response Value tls s t)
      → s.accepting ≡ false
      → accepts_of r ≡ 0
  Reach-accepts s here off = refl
  Reach-accepts s (later {t = t} {u = u} r st) off =
      omega (arith, Reach-accepts s r off, Step-accepts t u st (Reach-Stopped s r off).off)

  -- After the step of the accept loop that takes the shutdown signal, and in whatever way the server goes
  -- on from there: no connection is accepted any more and no task is spawned, and the tasks begin, finish
  -- their handshakes and end in at most three steps for each task that there was at the signal; all other
  -- steps are requests and those of the other parts.
  pub shutdown-terminates :
      (s u : Listener L F) {t : Listener L F} (st : Step L Response Value tls s u)
      (r : Reach L Response Value tls u t)
      → is_shutdown st ≡ true
      → (accepts_of r ≡ 0) × (length t.tasks ≡ length s.tasks) × (moves_of r ≤ 3 * length s.tasks)
  shutdown-terminates s u st r signal =
      let (off, same) = shutdown-stops s u st signal in
      let stopped = Reach-Stopped u r off in
      let places = ap (λ (tasks : List Task). length tasks) same in
      (
        Reach-accepts u r off,
        stopped.same ∙ places,
        omega (arith, stopped.fewer, total-steps_left-le u.tasks, places),
      )

-- ===== src/Sync/Supervisor/Lifecycle.antt =====
-- `start`, `stop` and `_run` of sync/supervisor.py as steps that may come in any order, and the health
-- check of router/base.py. `active` says that the bridge is enabled and configured. The
-- `join` of `stop` and its `close` of the pool are left out.
use pumo_bio_metric.Prelude.{
  ℕ, zero, suc, ◌+◌, ◌==◌, ◌≤◌, ◌≡◌, refl, Bool, true, false, not, ◌||◌, List, [], ◌∷◌, ◌++◌,
  if◌then◌else◌, Option, none, some, arith, count_by, all,
}
use pumo_bio_metric.Sync.Config.{SyncConfig, configured}
use pumo_bio_metric.Sync.Spool.{pending}
use pumo_bio_metric.Sync.Punch.{Line}
use pumo_bio_metric.Sync.Database.{Ending, committed, unavailable, attribute_error, other_error}

-- A thread of `_run`: before the test of `while`; in its wait; past it, before `is_set`; past that test,
-- before `pending`; past both, before `_flush`; in `_flush`; or over.
pub data Loop : Type 0 where
  entering waiting woken unstopped holding flushing ended : Loop

abbrev code : Loop → ℕ
code entering = 0
code waiting = 1
code woken = 2
code unstopped = 3
code holding = 4
code flushing = 5
code ended = 6

abbrev same_loop : Loop → Loop → Bool
same_loop p q = code p == code q

-- The stop event, and every thread that was started.
pub record Supervisor : Type 0 where
  pub stopping : Bool
  pub loops : List Loop

pub data Move : Type 0 where
  start stop : Move
  -- `while not self._stop.is_set()`
  enter : ℕ → Move
  -- the wait of a thread is over
  wake : ℕ → Move
  -- `if self._stop.is_set()`
  look : ℕ → Move
  -- `if not self._spool.pending()`, and whether the spool has a punch
  count : ℕ → Bool → Move
  -- `self._flush()` begins
  begin : ℕ → Move
  -- the flush of a thread is over, and whether `_run` catches what it raised
  flushed : ℕ → Bool → Move

-- The thread with this number goes on from `p` to `q`; if it is elsewhere, nothing happens.
unfoldable pub change : ℕ → Loop → Loop → List Loop → List Loop
change n p q [] = []
change zero p q (l ∷ ls) = (if same_loop p l then q else l) ∷ ls
change (suc n) p q (l ∷ ls) = l ∷ change n p q ls

abbrev pub go : ℕ → Loop → Loop → Supervisor → Supervisor
go n p q s = record s { loops = change n p q s.loops }

unfoldable pub step : Bool → Move → Supervisor → Supervisor
unfolding change
step active start s =
    if active then record { stopping = false; loops = s.loops ++ entering ∷ [] } else s
step active stop s = record s { stopping = true }
step active (enter n) s = go n entering (if s.stopping then ended else waiting) s
step active (wake n) s = go n waiting woken s
step active (look n) s = go n woken (if s.stopping then ended else unstopped) s
step active (count n held) s = go n unstopped (if held then holding else entering) s
step active (begin n) s = go n holding flushing s
step active (flushed n caught) s = go n flushing (if caught then entering else ended) s

unfoldable pub run : Bool → List Move → Supervisor → Supervisor
run active [] s = s
run active (m ∷ ms) s = run active ms (step active m s)

abbrev pub is_start : Move → Bool
is_start start = true
is_start _ = false

-- Past the test of the stop event, before the flush.
abbrev pub is_about_to : Loop → Bool
is_about_to l = same_loop unstopped l || same_loop holding l

unfoldable pub is_at : ℕ → Loop → List Loop → Bool
is_at n p [] = false
is_at zero p (l ∷ ls) = same_loop p l
is_at (suc n) p (l ∷ ls) = is_at n p ls

abbrev one : Bool → ℕ
one b = if b then 1 else 0

-- How many flushes a step begins.
abbrev begins : Move → Supervisor → ℕ
begins (begin n) s = one (is_at n holding s.loops)
begins _ s = 0

-- How many flushes begin in a schedule.
unfoldable pub begun : Bool → List Move → Supervisor → ℕ
unfolding step is_at
begun active [] s = 0
begun active (m ∷ ms) s = begins m s + begun active ms (step active m s)

about_to-change :
    (n : ℕ) (p q : Loop) (ls : List Loop)
    → (is_about_to p ≡ false → is_about_to q ≡ false)
    → count_by is_about_to (change n p q ls) ≤ count_by is_about_to ls
unfolding count_by change
about_to-change n p q [] h = omega arith
about_to-change zero p q (l ∷ ls) h = ground (arith, h)
about_to-change (suc n) p q (l ∷ ls) h = ground (arith, about_to-change n p q ls h)

about_to-begin :
    (n : ℕ) (ls : List Loop)
    → count_by is_about_to (change n holding flushing ls) + one (is_at n holding ls)
      ≤ count_by is_about_to ls
unfolding count_by change is_at
about_to-begin n [] = omega arith
about_to-begin zero (l ∷ ls) = ground arith
about_to-begin (suc n) (l ∷ ls) = ground (arith, about_to-begin n ls)

about_to-step :
    (active : Bool) (m : Move) (s : Supervisor)
    → s.stopping ≡ true
    → is_start m ≡ false
    → ((step active m s).stopping ≡ true)
      × (count_by is_about_to (step active m s).loops + begins m s ≤ count_by is_about_to s.loops)
unfolding step
about_to-step active start s stopped h = absurd (ground (arith, h))
about_to-step active stop s stopped h = (refl, omega arith)
about_to-step active (enter n) s stopped h =
    rw stopped (refl, omega (arith, about_to-change n entering ended s.loops (λ e. refl)))
about_to-step active (wake n) s stopped h =
    (stopped, omega (arith, about_to-change n waiting woken s.loops (λ e. refl)))
about_to-step active (look n) s stopped h =
    rw stopped (refl, omega (arith, about_to-change n woken ended s.loops (λ e. refl)))
about_to-step active (count n held) s stopped h =
    let fewer =
      about_to-change n unstopped (if held then holding else entering) s.loops
        (λ e. absurd (ground (arith, e))) in
    (stopped, omega (arith, fewer))
about_to-step active (begin n) s stopped h = (stopped, about_to-begin n s.loops)
about_to-step active (flushed n caught) s stopped h =
    let fewer =
      about_to-change n flushing (if caught then entering else ended) s.loops (λ e. ground arith) in
    (stopped, omega (arith, fewer))

run-begun :
    (active : Bool) (ms : List Move) (s : Supervisor)
    → s.stopping ≡ true
    → all (λ m. not (is_start m)) ms ≡ true
    → ((run active ms s).stopping ≡ true)
      × (begun active ms s + count_by is_about_to (run active ms s).loops
          ≤ count_by is_about_to s.loops)
unfolding run begun all
run-begun active [] s e h = (e, omega arith)
run-begun active (m ∷ ms) s e h =
    let (set, fewer) = about_to-step active m s e (ground (arith, h)) in
    let (still, later) = run-begun active ms (step active m s) set (ground (arith, h)) in
    (still, omega (arith, fewer, later))

-- After `stop`, and as long as nobody calls `start`, the stop event stays set, and in whatever order the threads
-- go on, at most those threads begin one more flush that were past their test of the stop event when it
-- was set, and had not begun the flush.
pub stopped-begun :
    (active : Bool) (ms : List Move) (s : Supervisor)
    → all (λ m. not (is_start m)) ms ≡ true
    → ((run active ms (step active stop s)).stopping ≡ true)
      × (begun active ms (step active stop s) ≤ count_by is_about_to s.loops)
unfolding step
stopped-begun active ms s h =
    let (set, fewer) = run-begun active ms (step active stop s) refl h in
    (set, omega (arith, fewer))

-- `healthy`; an exception other than `LmsUnavailableError` leaves the route
unfoldable pub healthy : Ending → Option Bool
healthy committed = some true
healthy unavailable = some false
healthy attribute_error = none
healthy other_error = none

pub data Health : Type 0 where
  disabled unconfigured : ℕ → Health
  reached : Bool → ℕ → Health

-- `health_check`, with the status; `e` is how `SELECT 1` would end
unfoldable pub health_check : SyncConfig → List Line → Ending → Option (ℕ × Health)
unfolding healthy
health_check c file e =
    if not c.enabled
    then some (200, disabled (pending file))
    else if not (configured c)
    then some (503, unconfigured (pending file))
    else elim (healthy e) [
      | some ok ↦ some (if ok then 200 else 503, reached ok (pending file))
      | none ↦ none
    ]

-- ===== src/Sync/Database/Leases.antt =====
-- Under every schedule, the pool counts the connections that are out, and a pool that failed does not come back.
use mathlib.Core.Path.{subst}
use pumo_bio_metric.Prelude.{
  ℕ, suc, ◌≤◌, ◌<◌, ◌≡◌, refl, sym, Bool, true, false, ◌&&◌, List, [], ◌∷◌, Option, none, some,
  ◌==◌, ltb, arith, count_by, Bool-cases, inl, inr, all,
}
use pumo_bio_metric.Sync.Database.{
  Ending, committed, unavailable, attribute_error, other_error, Phase, free, checked, ensured,
  using, releasing, returning, Pool, Database, Block, succeeds, psycopg_error, another_error, Move,
  ensure, return_pool, take, leave, test_pool, put, close, phase_at, set_phase, close_pool,
  ensure_pool, id_of, take_from, take_connection, put_back, leave_block, test_for_pool,
  put_connection, ensure_in, return_in, take_in, leave_in, test_in, put_in, step, run,
  max_connections, go,
}
use pumo_bio_metric.Sync.Database.Phases.{
  is_using, is_past, count-set_phase, all-set_phase, all-phase_at, all-past_suc, count-unused,
}

-- The connections of the pool that are out are those that threads use, and no more than 8; the pool is the
-- newest; no thread knows a pool that is newer.
abbrev pub Counts : Option Pool → ℕ → List Phase → Type 0
Counts none opened ts = all (is_past opened) ts ≡ true
Counts (some p) opened ts =
    (p.leased ≡ count_by (is_using p.id) ts)
    × (p.leased ≤ max_connections)
    × (suc p.id ≡ opened)
    × (all (is_past opened) ts ≡ true)

abbrev pub IsAccounted : Database → Type 0
IsAccounted d = Counts d.pool d.opened d.threads

Counts-past :
    (o : Option Pool) (opened : ℕ) (ts : List Phase)
    → Counts o opened ts
    → all (is_past opened) ts ≡ true
Counts-past none opened ts h = h
Counts-past (some p) opened ts h = h.3

module _ (n : ℕ) (p q : Phase) (opened : ℕ) (ts : List Phase) (at : phase_at n ts ≡ some p)
    (known : is_past opened q ≡ true) where
  -- A thread goes on with the connection that it has, or without one.
  go-Counts :
      (o : Option Pool)
      → ((id : ℕ) → is_using id p ≡ is_using id q)
      → Counts o opened ts
      → Counts o opened (set_phase n q ts)
  go-Counts none h c = all-set_phase (is_past opened) n q ts c known
  go-Counts (some r) h c = (
    ground (arith, c.0, h r.id, count-set_phase (is_using r.id) n q p ts at),
    c.1,
    c.2,
    all-set_phase (is_past opened) n q ts c.3 known,
  )

  drop-Counts : (o : Option Pool) → Counts o opened ts → Counts none opened (set_phase n q ts)
  drop-Counts o c = all-set_phase (is_past opened) n q ts (Counts-past o opened ts c) known

  -- A thread goes on without the connection that it had.
  put_back-Counts :
      (o : Option Pool) (id : ℕ)
      → ((k : ℕ) → is_using k p ≡ (id == k))
      → ((k : ℕ) → is_using k q ≡ false)
      → Counts o opened ts
      → Counts (put_back id o) opened (set_phase n q ts)
  unfolding put_back
  put_back-Counts none id e h c = all-set_phase (is_past opened) n q ts c known
  put_back-Counts (some r) id e h c = elim (Bool-cases (r.id == id)) [
    | inl here ↦ rw here (
      ground (arith, c.0, here, e r.id, h r.id, count-set_phase (is_using r.id) n q p ts at),
      ground (arith, c.1),
      c.2,
      all-set_phase (is_past opened) n q ts c.3 known,
    )
    | inr gone ↦ rw gone (
      ground (arith, c.0, gone, e r.id, h r.id, count-set_phase (is_using r.id) n q p ts at),
      c.1,
      c.2,
      all-set_phase (is_past opened) n q ts c.3 known,
    )
  ]

id_of-past :
    (o : Option Pool) (opened : ℕ) (ts : List Phase)
    → Counts o opened ts
    → is_past opened (ensured (id_of o)) ≡ true
id_of-past none opened ts c = refl
id_of-past (some p) opened ts c = ground (arith, c.2)

take-Counts :
    (n id : ℕ) (p : Pool) (opened : ℕ) (ts : List Phase)
    → phase_at n ts ≡ some (ensured (some id))
    → Counts (some p) opened ts
    → (p.id == id) ≡ true
    → ltb p.leased max_connections ≡ true
    → Counts (some (record p { leased = suc p.leased })) opened (set_phase n (using id) ts)
take-Counts n id p opened ts at c here room = (
  ground (arith, c.0, here, count-set_phase (is_using p.id) n (using id) (ensured (some id)) ts at),
  ground (arith, room),
  c.2,
  all-set_phase (is_past opened) n (using id) ts c.3 (ground (arith, c.2, here)),
)

module _ (n : ℕ) (d : Database) (c : IsAccounted d) where
  go-free :
      (p : Phase) (e : Ending)
      → phase_at n d.threads ≡ some p
      → ((id : ℕ) → is_using id p ≡ false)
      → IsAccounted (go n (free (some e)) d)
  go-free p e at h = go-Counts n p (free (some e)) d.opened d.threads at refl d.pool h c

  ensure_pool-IsAccounted :
      (opens : Bool) (e : Option Ending) (o : Option Pool)
      → phase_at n d.threads ≡ some (free e)
      → d.pool ≡ o
      → IsAccounted (ensure_pool n opens o d)
  unfolding ensure_pool
  ensure_pool-IsAccounted opens e (some p) at same_pool =
      go-Counts n (free e) checked d.opened d.threads at refl d.pool (λ id. refl) c
  ensure_pool-IsAccounted false e none at same_pool = go-free (free e) unavailable at (λ id. refl)
  ensure_pool-IsAccounted true e none at same_pool =
      let past = Counts-past d.pool d.opened d.threads c in
      (
        sym (
            count-unused d.opened (set_phase n checked d.threads)
              (all-set_phase (is_past d.opened) n checked d.threads past refl)),
        omega arith,
        refl,
        all-set_phase (is_past (suc d.opened)) n checked d.threads
            (all-past_suc d.opened d.threads past) refl,
      )

  return_in-IsAccounted :
      (o : Option Phase) → phase_at n d.threads ≡ o → IsAccounted (return_in o n d)
  unfolding return_in
  return_in-IsAccounted none at = c
  return_in-IsAccounted (some checked) at =
      go-Counts n checked (ensured (id_of d.pool)) d.opened d.threads at
        (id_of-past d.pool d.opened d.threads c) d.pool (λ id. refl) c
  return_in-IsAccounted (some (free e)) at = c
  return_in-IsAccounted (some (ensured i)) at = c
  return_in-IsAccounted (some (using i)) at = c
  return_in-IsAccounted (some (releasing e i)) at = c
  return_in-IsAccounted (some (returning e i)) at = c

  take_from-IsAccounted :
      (connects : Bool) (id : ℕ) (o : Option Pool)
      → phase_at n d.threads ≡ some (ensured (some id))
      → d.pool ≡ o
      → IsAccounted (take_from n connects id o d)
  unfolding take_from close_pool
  take_from-IsAccounted connects id none at e =
      drop-Counts n _ (free (some unavailable)) d.opened d.threads at refl d.pool c
  take_from-IsAccounted connects id (some p) at e =
      elim (Bool-cases (p.id == id && (connects && ltb p.leased max_connections))) [
        | inl free_slot ↦ rw free_slot (
            take-Counts n id p d.opened d.threads at
              (subst (λ (o : Option Pool). Counts o d.opened d.threads) (e) c)
              (ground (arith, free_slot)) (ground (arith, free_slot)))
        | inr refused ↦
            rw refused
              (drop-Counts n _ (free (some unavailable)) d.opened d.threads at refl d.pool c)
      ]

  take_in-IsAccounted :
      (connects : Bool) (o : Option Phase)
      → phase_at n d.threads ≡ o
      → IsAccounted (take_in o n connects d)
  unfolding take_in take_connection
  take_in-IsAccounted connects none at = c
  take_in-IsAccounted connects (some (free e)) at = c
  take_in-IsAccounted connects (some checked) at = c
  take_in-IsAccounted connects (some (using i)) at = c
  take_in-IsAccounted connects (some (releasing e i)) at = c
  take_in-IsAccounted connects (some (returning e i)) at = c
  take_in-IsAccounted connects (some (ensured none)) at =
      go-free (ensured none) attribute_error at (λ id. refl)
  take_in-IsAccounted connects (some (ensured (some id))) at =
      take_from-IsAccounted connects id d.pool at refl

  keeps :
      (p q : Phase)
      → phase_at n d.threads ≡ some p
      → is_past d.opened q ≡ true
      → ((id : ℕ) → is_using id p ≡ is_using id q)
      → IsAccounted (go n q d)
  keeps p q at past h = go-Counts n p q d.opened d.threads at past d.pool h c

  -- The pool of the phase that a thread is in is known.
  known : {p : Phase} → phase_at n d.threads ≡ some p → is_past d.opened p ≡ true
  known {p} at =
      all-phase_at (is_past d.opened) n p d.threads (Counts-past d.pool d.opened d.threads c) at

  leave_in-IsAccounted :
      (b : Block) (o : Option Phase) → phase_at n d.threads ≡ o → IsAccounted (leave_in o n b d)
  unfolding leave_in leave_block close_pool
  leave_in-IsAccounted b none at = c
  leave_in-IsAccounted b (some (free e)) at = c
  leave_in-IsAccounted b (some checked) at = c
  leave_in-IsAccounted b (some (ensured i)) at = c
  leave_in-IsAccounted b (some (releasing e i)) at = c
  leave_in-IsAccounted b (some (returning e i)) at = c
  leave_in-IsAccounted succeeds (some (using id)) at =
      keeps (using id) (releasing committed id) at (known at) (λ k. refl)
  leave_in-IsAccounted psycopg_error (some (using id)) at =
      drop-Counts n (using id) (releasing unavailable id) d.opened d.threads at (known at) d.pool c
  leave_in-IsAccounted another_error (some (using id)) at =
      keeps (using id) (releasing other_error id) at (known at) (λ k. refl)

  test_for_pool-IsAccounted :
      (e : Ending) (id : ℕ) (o : Option Pool)
      → phase_at n d.threads ≡ some (releasing e id)
      → d.pool ≡ o
      → IsAccounted (test_for_pool n e id o d)
  unfolding test_for_pool
  test_for_pool-IsAccounted e id none at none_left =
      rw none_left
        (drop-Counts n (releasing e id) (free (some e)) d.opened d.threads at refl d.pool c)
  test_for_pool-IsAccounted e id (some p) at there =
      keeps (releasing e id) (returning e id) at (known at) (λ k. refl)

  test_in-IsAccounted : (o : Option Phase) → phase_at n d.threads ≡ o → IsAccounted (test_in o n d)
  unfolding test_in
  test_in-IsAccounted none at = c
  test_in-IsAccounted (some (free e)) at = c
  test_in-IsAccounted (some checked) at = c
  test_in-IsAccounted (some (ensured i)) at = c
  test_in-IsAccounted (some (using i)) at = c
  test_in-IsAccounted (some (releasing e id)) at = test_for_pool-IsAccounted e id d.pool at refl
  test_in-IsAccounted (some (returning e i)) at = c

  put_connection-IsAccounted :
      (e : Ending) (id : ℕ) (o : Option Pool)
      → phase_at n d.threads ≡ some (returning e id)
      → d.pool ≡ o
      → IsAccounted (put_connection n e id o d)
  unfolding put_connection
  put_connection-IsAccounted e id none at none_left = rw none_left (
      drop-Counts n (returning e id) (free (some attribute_error)) d.opened d.threads at refl d.pool
        c)
  put_connection-IsAccounted e id (some p) at there =
      put_back-Counts n (returning e id) (free (some e)) d.opened d.threads at refl (some p) id
        (λ k. refl) (λ k. refl) (subst (λ (o : Option Pool). Counts o d.opened d.threads) there c)

  put_in-IsAccounted : (o : Option Phase) → phase_at n d.threads ≡ o → IsAccounted (put_in o n d)
  unfolding put_in
  put_in-IsAccounted none at = c
  put_in-IsAccounted (some (free e)) at = c
  put_in-IsAccounted (some checked) at = c
  put_in-IsAccounted (some (ensured i)) at = c
  put_in-IsAccounted (some (using i)) at = c
  put_in-IsAccounted (some (releasing e i)) at = c
  put_in-IsAccounted (some (returning e id)) at = put_connection-IsAccounted e id d.pool at refl

  ensure_in-IsAccounted :
      (opens : Bool) (o : Option Phase)
      → phase_at n d.threads ≡ o
      → IsAccounted (ensure_in o n opens d)
  unfolding ensure_in
  ensure_in-IsAccounted opens none at = c
  ensure_in-IsAccounted opens (some (free e)) at = ensure_pool-IsAccounted opens e d.pool at refl
  ensure_in-IsAccounted opens (some checked) at = c
  ensure_in-IsAccounted opens (some (ensured i)) at = c
  ensure_in-IsAccounted opens (some (using i)) at = c
  ensure_in-IsAccounted opens (some (releasing e i)) at = c
  ensure_in-IsAccounted opens (some (returning e i)) at = c

step-IsAccounted : (m : Move) (d : Database) → IsAccounted d → IsAccounted (step m d)
unfolding step close_pool
step-IsAccounted (ensure n opens) d c = ensure_in-IsAccounted n d c opens _ refl
step-IsAccounted (return_pool n) d c = return_in-IsAccounted n d c _ refl
step-IsAccounted (take n connects) d c = take_in-IsAccounted n d c connects _ refl
step-IsAccounted (leave n b) d c = leave_in-IsAccounted n d c b _ refl
step-IsAccounted (test_pool n) d c = test_in-IsAccounted n d c _ refl
step-IsAccounted (put n) d c = put_in-IsAccounted n d c _ refl
step-IsAccounted close d c = Counts-past d.pool d.opened d.threads c

-- Under every schedule of the threads, from a state in which this holds, the connections of the pool
-- that are counted as out are exactly those that threads have, and at most 8; the pool is the newest one, and
-- no thread knows a newer. So a thread whose call is over, however it ended, has no connection of the pool.
pub run-IsAccounted : (ms : List Move) (d : Database) → IsAccounted d → IsAccounted (run ms d)
unfolding run
run-IsAccounted [] d c = c
run-IsAccounted (m ∷ ms) d c = run-IsAccounted ms (step m d) (step-IsAccounted m d c)

-- A pool that a thread has a connection of was opened before.
pub using-past :
    (n id : ℕ) (d : Database)
    → IsAccounted d
    → phase_at n d.threads ≡ some (using id)
    → id < d.opened
using-past n id d c at = ground (
  arith,
  all-phase_at (is_past d.opened) n (using id) d.threads (Counts-past d.pool d.opened d.threads c)
      at,
)

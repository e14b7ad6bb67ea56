-- ===== src/Sync/Database/Replaced.antt =====
-- A pool that was thrown away never comes back.
use pumo_bio_metric.Prelude.{
  ℕ, ◌≤◌, ◌<◌, ◌≡◌, Bool, true, false, ◌&&◌, List, [], ◌∷◌, Option, none, some, ◌==◌, ltb, arith,
  Bool-cases, inl, inr,
}
use pumo_bio_metric.Sync.Database.{
  Ending, Phase, free, checked, ensured, using, releasing, returning, Pool, Database, Block,
  succeeds, psycopg_error, another_error, Move, ensure, return_pool, take, leave, test_pool, put,
  close, phase_at, close_pool, ensure_pool, take_from, take_connection, put_back, leave_block,
  test_for_pool, put_connection, ensure_in, return_in, take_in, leave_in, test_in, put_in, step,
  run, max_connections,
}
use pumo_bio_metric.Sync.Database.Leases.{IsAccounted, using-past}

-- The pool, if there is one, has at least the number `k`, and so will the next.
abbrev IsFrom : ℕ → Option Pool → ℕ → Type 0
IsFrom k none opened = k ≤ opened
IsFrom k (some p) opened = (k ≤ p.id) × (k ≤ opened)

abbrev IsSince : ℕ → Database → Type 0
IsSince k d = IsFrom k d.pool d.opened

from-opened : (k : ℕ) (o : Option Pool) (opened : ℕ) → IsFrom k o opened → k ≤ opened
from-opened k none opened h = h
from-opened k (some p) opened h = h.1

module _ (k n : ℕ) (d : Database) (h : IsSince k d) where
  ensure_pool-IsSince : (opens : Bool) (o : Option Pool) → IsSince k (ensure_pool n opens o d)
  unfolding ensure_pool
  ensure_pool-IsSince opens (some p) = h
  ensure_pool-IsSince true none =
      let bound = from-opened k d.pool d.opened h in (bound, omega (arith, bound))
  ensure_pool-IsSince false none = h

  ensure-IsSince : (opens : Bool) (o : Option Phase) → IsSince k (ensure_in o n opens d)
  unfolding ensure_in
  ensure-IsSince opens none = h
  ensure-IsSince opens (some (free e)) = ensure_pool-IsSince opens d.pool
  ensure-IsSince opens (some checked) = h
  ensure-IsSince opens (some (ensured i)) = h
  ensure-IsSince opens (some (using i)) = h
  ensure-IsSince opens (some (releasing e i)) = h
  ensure-IsSince opens (some (returning e i)) = h

  return-IsSince : (o : Option Phase) → IsSince k (return_in o n d)
  unfolding return_in
  return-IsSince none = h
  return-IsSince (some (free e)) = h
  return-IsSince (some checked) = h
  return-IsSince (some (ensured i)) = h
  return-IsSince (some (using i)) = h
  return-IsSince (some (releasing e i)) = h
  return-IsSince (some (returning e i)) = h

  take_from-IsSince :
      (connects : Bool) (id : ℕ) (o : Option Pool)
      → IsFrom k o d.opened
      → IsSince k (take_from n connects id o d)
  unfolding take_from close_pool
  take_from-IsSince connects id none g = g
  take_from-IsSince connects id (some p) g =
      elim (Bool-cases (p.id == id && (connects && ltb p.leased max_connections))) [
        | inl free_slot ↦ rw free_slot g
        | inr refused ↦ rw refused (g.1)
      ]

  take-IsSince : (connects : Bool) (o : Option Phase) → IsSince k (take_in o n connects d)
  unfolding take_in take_connection
  take-IsSince connects none = h
  take-IsSince connects (some (free e)) = h
  take-IsSince connects (some checked) = h
  take-IsSince connects (some (using i)) = h
  take-IsSince connects (some (releasing e i)) = h
  take-IsSince connects (some (returning e i)) = h
  take-IsSince connects (some (ensured none)) = h
  take-IsSince connects (some (ensured (some id))) = take_from-IsSince connects id d.pool h

  put_back-IsFrom :
      (id : ℕ) (o : Option Pool) → IsFrom k o d.opened → IsFrom k (put_back id o) d.opened
  unfolding put_back
  put_back-IsFrom id none g = g
  put_back-IsFrom id (some p) g = elim (Bool-cases (p.id == id)) [ inl e ↦ rw e g | inr e ↦ rw e g ]

  leave-IsSince : (b : Block) (o : Option Phase) → IsSince k (leave_in o n b d)
  unfolding leave_in leave_block close_pool
  leave-IsSince b none = h
  leave-IsSince b (some (free e)) = h
  leave-IsSince b (some checked) = h
  leave-IsSince b (some (ensured i)) = h
  leave-IsSince b (some (releasing e i)) = h
  leave-IsSince b (some (returning e i)) = h
  leave-IsSince succeeds (some (using id)) = h
  leave-IsSince psycopg_error (some (using id)) = from-opened k d.pool d.opened h
  leave-IsSince another_error (some (using id)) = h

  test_for_pool-IsSince :
      (e : Ending) (id : ℕ) (o : Option Pool) → IsSince k (test_for_pool n e id o d)
  unfolding test_for_pool
  test_for_pool-IsSince e id none = h
  test_for_pool-IsSince e id (some p) = h

  test-IsSince : (o : Option Phase) → IsSince k (test_in o n d)
  unfolding test_in
  test-IsSince none = h
  test-IsSince (some (free e)) = h
  test-IsSince (some checked) = h
  test-IsSince (some (ensured i)) = h
  test-IsSince (some (using i)) = h
  test-IsSince (some (releasing e id)) = test_for_pool-IsSince e id d.pool
  test-IsSince (some (returning e i)) = h

  put_connection-IsSince :
      (e : Ending) (id : ℕ) (o : Option Pool)
      → IsFrom k o d.opened
      → IsSince k (put_connection n e id o d)
  unfolding put_connection
  put_connection-IsSince e id none g = h
  put_connection-IsSince e id (some p) g = put_back-IsFrom id (some p) g

  put-IsSince : (o : Option Phase) → IsSince k (put_in o n d)
  unfolding put_in
  put-IsSince none = h
  put-IsSince (some (free e)) = h
  put-IsSince (some checked) = h
  put-IsSince (some (ensured i)) = h
  put-IsSince (some (using i)) = h
  put-IsSince (some (releasing e i)) = h
  put-IsSince (some (returning e id)) = put_connection-IsSince e id d.pool h

run-IsSince : (k : ℕ) (ms : List Move) (d : Database) → IsSince k d → IsSince k (run ms d)
unfolding run step close_pool
run-IsSince k [] d h = h
run-IsSince k (ensure n opens ∷ ms) d h = run-IsSince k ms _ (ensure-IsSince k n d h opens _)
run-IsSince k (return_pool n ∷ ms) d h = run-IsSince k ms _ (return-IsSince k n d h _)
run-IsSince k (take n connects ∷ ms) d h = run-IsSince k ms _ (take-IsSince k n d h connects _)
run-IsSince k (leave n b ∷ ms) d h = run-IsSince k ms _ (leave-IsSince k n d h b _)
run-IsSince k (test_pool n ∷ ms) d h = run-IsSince k ms _ (test-IsSince k n d h _)
run-IsSince k (put n ∷ ms) d h = run-IsSince k ms _ (put-IsSince k n d h _)
run-IsSince k (close ∷ ms) d h = run-IsSince k ms _ (from-opened k d.pool d.opened h)

from-some :
    (k : ℕ) (o : Option Pool) (p : Pool) (opened : ℕ) → o ≡ some p → IsFrom k o opened → k ≤ p.id
from-some k none p opened e h = absurd (ground (arith, e))
from-some k (some r) p opened e h = ground (arith, e, h)

-- After psycopg2 raised an error on a connection, no step of any thread brings the pool of that connection back:
-- whatever pool there is later is newer. This holds in every state in which the connections that are out
-- are counted.
pub failed-is_replaced :
    (n id : ℕ) (p : Pool) (ms : List Move) (d : Database)
    → IsAccounted d
    → phase_at n d.threads ≡ some (using id)
    → (run ms (step (leave n psycopg_error) d)).pool ≡ some p
    → id < p.id
unfolding step leave_in leave_block close_pool
failed-is_replaced n id p ms d c at e =
    let past = using-past n id d c at in
    let since = run-IsSince d.opened ms (step (leave n psycopg_error) d) (rw at (omega arith)) in
    omega (arith, past, from-some d.opened _ p _ e since)

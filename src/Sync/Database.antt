-- ===== src/Sync/Database.antt =====
-- The connection pool of sync/lms_db.py, as the threads that use it see it: `_ensure_pool`, `close` and
-- `_connection`, cut into the steps between which another thread may run. A pool is known by its number
-- in the order of creation. psycopg2 decides whether a pool opens, whether a connection is handed out
-- below the bound of 8, and how the statements of a caller end.
pub mod Phases
pub mod Leases
pub mod Replaced
pub mod Devices
use pumo_bio_metric.Prelude.{
  ℕ, zero, suc, ◌+◌, ◌-◌, Bool, true, false, ◌&&◌, List, [], ◌∷◌, if◌then◌else◌, Option, none, some,
  ◌==◌, ltb,
}

-- How a call ends: `LmsUnavailableError`, the `AttributeError` of `None.getconn()`, another exception of the
-- caller's block, or well.
pub data Ending : Type 0 where
  committed unavailable attribute_error other_error : Ending

-- Where a thread is: in no call, with the end of its last one; past the test or the creation of the
-- pool; with what `_ensure_pool` returned; with a connection of a pool; or after the block with its
-- `except` clause, in `finally`, before the test of `self._pool` or past it.
pub data Phase : Type 0 where
  free : Option Ending → Phase
  checked : Phase
  ensured : Option ℕ → Phase
  using : ℕ → Phase
  releasing returning : Ending → ℕ → Phase

-- A pool with the number of its connections that are out.
pub record Pool : Type 0 where
  pub id : ℕ
  pub leased : ℕ

-- `self._pool`, the number of pools so far, and the threads.
pub record Database : Type 0 where
  pub pool : Option Pool
  pub opened : ℕ
  pub threads : List Phase

-- How the block of a caller with its `commit` ends.
pub data Block : Type 0 where
  succeeds psycopg_error another_error : Block

-- A step of the thread with a number, or `close` of a caller that stops the service.
pub data Move : Type 0 where
  -- the test of `_ensure_pool`, and whether a pool that is wanted opens
  ensure : ℕ → Bool → Move
  -- `return self._pool`
  return_pool : ℕ → Move
  -- `pool.getconn()`, and whether psycopg2 can connect
  take : ℕ → Bool → Move
  -- the block, with the `except` clause
  leave : ℕ → Block → Move
  -- `self._pool is not None`
  test_pool : ℕ → Move
  -- `self._pool.putconn(conn)`
  put : ℕ → Move
  close : Move

abbrev pub phase_at : ℕ → List Phase → Option Phase
phase_at n [] = none
phase_at zero (p ∷ ps) = some p
phase_at (suc n) (p ∷ ps) = phase_at n ps

unfoldable pub set_phase : ℕ → Phase → List Phase → List Phase
set_phase n q [] = []
set_phase zero q (p ∷ ps) = q ∷ ps
set_phase (suc n) q (p ∷ ps) = p ∷ set_phase n q ps

-- `maxconn`
abbrev pub max_connections : ℕ
max_connections = 8

-- The thread goes on to a phase.
abbrev pub go : ℕ → Phase → Database → Database
go n q d = record d { threads = set_phase n q d.threads }

-- `self.close()`: the pool is thrown away, with the connections that are out.
unfoldable pub close_pool : Database → Database
close_pool d = record d { pool = none }

-- `_ensure_pool` up to its `return`: a pool that is not there is created under the lock.
unfoldable pub ensure_pool : ℕ → Bool → Option Pool → Database → Database
ensure_pool n opens (some p) d = go n checked d
ensure_pool n true none d = record d {
  pool = some (record { id = d.opened; leased = 0 });
  opened = suc d.opened;
  threads = set_phase n checked d.threads;
}
ensure_pool n false none d = go n (free (some unavailable)) d

abbrev pub id_of : Option Pool → Option ℕ
id_of none = none
id_of (some p) = some p.id

-- `getconn` of the pool with the number `id`, which another thread may have closed: an error of psycopg2 throws the
-- pool away that is there now.
unfoldable pub take_from : ℕ → Bool → ℕ → Option Pool → Database → Database
unfolding close_pool
take_from n connects id none d = go n (free (some unavailable)) (close_pool d)
take_from n connects id (some p) d =
    if p.id == id && (connects && ltb p.leased max_connections)
    then record d {
      pool = some (record p { leased = suc p.leased });
      threads = set_phase n (using id) d.threads;
    }
    else go n (free (some unavailable)) (close_pool d)

-- `pool.getconn()`
unfoldable pub take_connection : ℕ → Bool → Option ℕ → Database → Database
unfolding take_from
take_connection n connects none d = go n (free (some attribute_error)) d
take_connection n connects (some id) d = take_from n connects id d.pool d

-- `self._pool.putconn(conn)`; a pool that does not know the connection raises what is suppressed.
unfoldable pub put_back : ℕ → Option Pool → Option Pool
put_back id none = none
put_back id (some p) = if p.id == id then some (record p { leased = p.leased - 1 }) else some p

-- The end of the block of `_connection`, with a connection of the pool `id`; `commit` belongs to it.
unfoldable pub leave_block : ℕ → Block → ℕ → Database → Database
unfolding close_pool
leave_block n succeeds id d = go n (releasing committed id) d
leave_block n psycopg_error id d = go n (releasing unavailable id) (close_pool d)
leave_block n another_error id d = go n (releasing other_error id) d

-- The test of `finally`; without a pool the connection is dropped.
unfoldable pub test_for_pool : ℕ → Ending → ℕ → Option Pool → Database → Database
test_for_pool n e id none d = go n (free (some e)) d
test_for_pool n e id (some p) d = go n (returning e id) d

-- `self._pool` is read again: another thread may have closed it since the test.
unfoldable pub put_connection : ℕ → Ending → ℕ → Option Pool → Database → Database
unfolding put_back
put_connection n e id none d = go n (free (some attribute_error)) d
put_connection n e id (some p) d = go n (free (some e)) (record d { pool = put_back id (some p) })

-- The step of a thread in a phase; a thread that is elsewhere does nothing.
unfoldable pub ensure_in : Option Phase → ℕ → Bool → Database → Database
unfolding ensure_pool
ensure_in (some (free e)) n opens d = ensure_pool n opens d.pool d
ensure_in _ n opens d = d

unfoldable pub return_in : Option Phase → ℕ → Database → Database
return_in (some checked) n d = go n (ensured (id_of d.pool)) d
return_in _ n d = d

unfoldable pub take_in : Option Phase → ℕ → Bool → Database → Database
unfolding take_connection
take_in (some (ensured o)) n connects d = take_connection n connects o d
take_in _ n connects d = d

unfoldable pub leave_in : Option Phase → ℕ → Block → Database → Database
unfolding leave_block
leave_in (some (using id)) n b d = leave_block n b id d
leave_in _ n b d = d

unfoldable pub test_in : Option Phase → ℕ → Database → Database
unfolding test_for_pool
test_in (some (releasing e id)) n d = test_for_pool n e id d.pool d
test_in _ n d = d

unfoldable pub put_in : Option Phase → ℕ → Database → Database
unfolding put_connection
put_in (some (returning e id)) n d = put_connection n e id d.pool d
put_in _ n d = d

unfoldable pub step : Move → Database → Database
unfolding ensure_in return_in take_in leave_in test_in put_in close_pool
step (ensure n opens) d = ensure_in (phase_at n d.threads) n opens d
step (return_pool n) d = return_in (phase_at n d.threads) n d
step (take n connects) d = take_in (phase_at n d.threads) n connects d
step (leave n b) d = leave_in (phase_at n d.threads) n b d
step (test_pool n) d = test_in (phase_at n d.threads) n d
step (put n) d = put_in (phase_at n d.threads) n d
step close d = close_pool d

-- A schedule: the steps of all threads in the order in which they happen.
unfoldable pub run : List Move → Database → Database
run [] d = d
run (m ∷ ms) d = run ms (step m d)

-- ===== src/Sync/Ingest/Kept.antt =====
-- What becomes of the punches that a reader pushed.
use pumo_bio_metric.Prelude.{
  ℕ, ◌≡◌, refl, ◌⊎◌, ◌≢◌, inl, inr, Bool, true, List, [], ◌∷◌, ◌++◌, map, Result, ok, err, all,
  length, arith,
}
use mathlib.Core.Path.{subst}
use pumo_bio_metric.Sync.Punch.{
  LineError, type_error, bad_line, Line, blank, not_json, scalar, object, Scalar, Punch, to_json,
  from_json,
}
use pumo_bio_metric.Sync.Spool.{no_fault, next_punch, read_lines}
use pumo_bio_metric.Sync.Ingest.{
  Row, usable, Lms, Outcome, inserted, driver_error, other_error, SaveError, unavailable,
  unexpected, State, saved, save_punches, ingest_new, ingest_waiting, ingest, drain_error, flush,
  flush_waiting,
}

next_punch-type_error :
    (r : Result LineError Punch) → next_punch r (err type_error) ≡ err type_error
next_punch-type_error (err type_error) = refl
next_punch-type_error (err bad_line) = refl
next_punch-type_error (ok p) = refl

read_lines-scalar :
    (before after : List Line) (v : Scalar)
    → read_lines (before ++ (scalar v ∷ after)) ≡ err type_error
unfolding read_lines
read_lines-scalar [] after v = refl
read_lines-scalar (blank ∷ before) after v = read_lines-scalar before after v
read_lines-scalar (not_json ∷ before) after v = read_lines-scalar before after v
read_lines-scalar (scalar w ∷ before) after v = refl
read_lines-scalar (object raw ∷ before) after v =
    rw (read_lines-scalar before after v) (next_punch-type_error (from_json (object raw)))

module _ (L : Lms) where
  abbrev pub are_stored : L.Table → List Punch → Bool
  are_stored t ps = all (L.stored t) ps

  saved-are_stored :
      (t t' : L.Table) (ps : List Punch) (o : Outcome × L.Table) (r : ℕ × ℕ) (n : ℕ)
      → L.execute_values t ps ≡ o
      → saved L n o ≡ (ok r, t')
      → are_stored t' ps ≡ true
  saved-are_stored t t' ps (inserted m, u) r n h k = ground (arith, h, k, L.insert_stores t t' ps m)
  saved-are_stored t t' ps (driver_error, u) r n h k = ground (arith, k)
  saved-are_stored t t' ps (other_error, u) r n h k = ground (arith, k)

  save_punches-are_stored :
      (t t' : L.Table) (ps : List Punch) (r : ℕ × ℕ)
      → save_punches L t ps ≡ (ok r, t')
      → are_stored t' ps ≡ true
  unfolding save_punches all
  save_punches-are_stored t t' [] r h = refl
  save_punches-are_stored t t' (p ∷ ps) r h =
      saved-are_stored t t' (p ∷ ps) (L.execute_values t (p ∷ ps)) r (length (p ∷ ps)) refl h

  all-keeps :
      (t : L.Table) (ps qs : List Punch)
      → are_stored t qs ≡ true
      → are_stored (L.execute_values t ps).1 qs ≡ true
  unfolding all
  all-keeps t ps [] h = refl
  all-keeps t ps (q ∷ qs) h = ground (arith, h, all-keeps t ps qs, L.insert_keeps t ps q)

  saved-table : (n : ℕ) (o : Outcome × L.Table) → (saved L n o).1 ≡ o.1
  saved-table n (inserted m, u) = refl
  saved-table n (driver_error, u) = refl
  saved-table n (other_error, u) = refl

  save_punches-keeps :
      (t : L.Table) (ps qs : List Punch)
      → are_stored t qs ≡ true
      → are_stored (save_punches L t ps).1 qs ≡ true
  unfolding save_punches
  save_punches-keeps t [] qs h = h
  save_punches-keeps t (p ∷ ps) qs h =
      rw (saved-table (length (p ∷ ps)) (L.execute_values t (p ∷ ps))) (all-keeps t (p ∷ ps) qs h)

  are_stored-append :
      (t : L.Table) (ps qs : List Punch)
      → are_stored t ps ≡ true
      → are_stored t qs ≡ true
      → are_stored t (ps ++ qs) ≡ true
  unfolding all
  are_stored-append t [] qs h k = k
  are_stored-append t (p ∷ ps) qs h k = ground (arith, h, are_stored-append t ps qs, k)

  -- Where the held and the new punches are: all in the table, the new ones in the file, or all in the
  -- file.
  abbrev pub Kept : List Punch → List Punch → State L → Type 0
  Kept waiting punches s =
      (are_stored s.table (waiting ++ punches) ≡ true)
      ⊎ ((are_stored s.table waiting ≡ true) × (s.file ≡ map to_json punches))
      ⊎ (s.file ≡ map to_json waiting ++ map to_json punches)

  ingest_new-Kept :
      (t : L.Table) (waiting punches : List Punch) (r : Result SaveError (ℕ × ℕ) × L.Table)
      → save_punches L t punches ≡ r
      → are_stored t waiting ≡ true
      → Kept waiting punches (ingest_new L punches [] r).1
  ingest_new-Kept t waiting punches (ok (n, m), u) h k = inl (
      are_stored-append u waiting punches
        (subst (λ r. are_stored r.1 waiting ≡ true) h (save_punches-keeps t punches waiting k))
        (save_punches-are_stored t u punches (n, m) h))
  ingest_new-Kept t waiting punches (err e, u) h k = inr (
      inl (
        subst (λ r. are_stored r.1 waiting ≡ true) h (save_punches-keeps t punches waiting k),
        refl,
      ))

  ingest_waiting-Kept :
      (t : L.Table) (waiting punches : List Punch) (r : Result SaveError (ℕ × ℕ) × L.Table)
      → save_punches L t waiting ≡ r
      → r.0 ≢ err unexpected
      → Kept waiting punches (ingest_waiting L punches waiting [] r).1
  ingest_waiting-Kept t waiting punches (ok (n, m), u) h k =
      ingest_new-Kept u waiting punches (save_punches L u punches) refl
        (save_punches-are_stored t u waiting (n, m) h)
  ingest_waiting-Kept t waiting punches (err unavailable, u) h k = inr (inr refl)
  ingest_waiting-Kept t waiting punches (err unexpected, u) h k = absurd (k refl)

  -- `ingest` of rows with at least one usable punch keeps the punches that the spool held and the
  -- new ones, if the bridge is active, the file system does not fail, no line of the spool raises a
  -- `TypeError` and saving the held punches raises no exception but `LmsUnavailableError`: all are
  -- rows of the table, or the held ones are and the file has the new ones, or the file has all.
  pub ingest-Kept :
      (rows : List Row) (s : State L) (waiting : List Punch) (p : Punch) (ps : List Punch)
      → read_lines s.file ≡ ok waiting
      → usable rows ≡ p ∷ ps
      → (save_punches L s.table waiting).0 ≢ err unexpected
      → Kept waiting (p ∷ ps) (ingest L true no_fault rows s).1
  unfolding ingest
  ingest-Kept rows s waiting p ps h k l =
      rw (k, h)
        (ingest_waiting-Kept s.table waiting (p ∷ ps) (save_punches L s.table waiting) refl l)

  -- If saving the held punches raises an exception other than `LmsUnavailableError`, `ingest` of rows
  -- with a usable punch leaves a spool with the new punches only: the held ones, which it drained, are
  -- not put back.
  pub ingest_drops_waiting :
      (rows : List Row) (s : State L) (waiting : List Punch) (t : L.Table) (p : Punch)
      (ps : List Punch)
      → read_lines s.file ≡ ok waiting
      → usable rows ≡ p ∷ ps
      → save_punches L s.table waiting ≡ (err unexpected, t)
      → (ingest L true no_fault rows s).1 ≡ record { file = map to_json (p ∷ ps); table = t }
  unfolding ingest
  ingest_drops_waiting rows s waiting t p ps h k l = rw (k, h, l) refl

  flush_waiting-kept :
      (t : L.Table) (waiting : List Punch) (r : Result SaveError (ℕ × ℕ) × L.Table)
      → save_punches L t waiting ≡ r
      → (are_stored (flush_waiting L waiting [] r).1.table waiting ≡ true)
        ⊎ ((flush_waiting L waiting [] r).1.file ≡ map to_json waiting)
  flush_waiting-kept t waiting (ok (n, m), u) h = inl (save_punches-are_stored t u waiting (n, m) h)
  flush_waiting-kept t waiting (err e, u) h = inr refl

  -- After `_flush` the punches that the spool held are rows of the table, or the spool holds them as
  -- before, whatever the database raises: if the file system does not fail and no line of the spool
  -- raises a `TypeError`.
  pub flush-kept :
      (s : State L) (waiting : List Punch)
      → read_lines s.file ≡ ok waiting
      → (are_stored (flush L no_fault s).1.table waiting ≡ true)
        ⊎ ((flush L no_fault s).1.file ≡ map to_json waiting)
  unfolding flush
  flush-kept s waiting h =
      rw h (flush_waiting-kept s.table waiting (save_punches L s.table waiting) refl)

  -- A line of the spool that is JSON but no object costs the whole spool: `_flush` raises the
  -- `TypeError` and the file is empty, the table as before.
  pub flush_loses_spool :
      (s : State L) (before after : List Line) (v : Scalar)
      → s.file ≡ before ++ (scalar v ∷ after)
      → flush L no_fault s ≡ (err (drain_error type_error), record { file = []; table = s.table })
  unfolding flush
  flush_loses_spool s before after v h = rw (h, read_lines-scalar before after v) refl

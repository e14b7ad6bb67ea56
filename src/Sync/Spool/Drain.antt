-- ===== src/Sync/Spool/Drain.antt =====
-- What `drain` gives back of what `add` put into the file.
use pumo_bio_metric.Prelude.{
  ◌≡◌, refl, Bool, List, [], ◌∷◌, ◌++◌, map, ok, err, Result, arith, true, all, leb, ◌&&◌,
}
use pumo_bio_metric.Sync.Time.{DateTime, is_valid}
use pumo_bio_metric.Sync.Time.RoundTrip.{IsWritable}
use pumo_bio_metric.Sync.Punch.{
  Punch, Line, blank, not_json, scalar, object, LineError, bad_line, type_error, to_json, from_json,
}
use pumo_bio_metric.Sync.Punch.RoundTrip.{from_json-to_json}
use pumo_bio_metric.Sync.Spool.{no_fault, add, next_punch, read_lines, drain}

-- A valid time of a year with four digits.
abbrev pub is_writable : DateTime → Bool
is_writable t = leb 1000 t.year && is_valid t

is_writable-IsWritable : (t : DateTime) → is_writable t ≡ true → IsWritable t
is_writable-IsWritable t h = record { year_low = ground (arith, h); valid = ground (arith, h) }

abbrev pub are_writable : List Punch → Bool
are_writable = all (λ p. is_writable p.device_time)

read_lines-to_json :
    (ps : List Punch) → are_writable ps ≡ true → read_lines (map to_json ps) ≡ ok ps
unfolding read_lines all
read_lines-to_json [] h = refl
read_lines-to_json (p ∷ ps) h =
    rw
      (
        from_json-to_json p (is_writable-IsWritable p.device_time (ground (arith, h))),
        read_lines-to_json ps (ground (arith, h)),
      )
      refl

abbrev joined : Result LineError (List Punch) → List Punch → Result LineError (List Punch)
joined (ok qs) ps = ok (qs ++ ps)
joined (err e) ps = err e

next_punch-joined :
    (r : Result LineError Punch) (rest : Result LineError (List Punch)) (ps : List Punch)
    → next_punch r (joined rest ps) ≡ joined (next_punch r rest) ps
next_punch-joined (err type_error) rest ps = refl
next_punch-joined (err bad_line) rest ps = refl
next_punch-joined (ok p) (ok qs) ps = refl
next_punch-joined (ok p) (err e) ps = refl

read_lines-append :
    (file : List Line) (ps : List Punch)
    → are_writable ps ≡ true
    → read_lines (file ++ map to_json ps) ≡ joined (read_lines file) ps
unfolding read_lines
read_lines-append [] ps h = read_lines-to_json ps h
read_lines-append (blank ∷ file) ps h = read_lines-append file ps h
read_lines-append (not_json ∷ file) ps h = rw (read_lines-append file ps h) refl
read_lines-append (scalar v ∷ file) ps h = refl
read_lines-append (object raw ∷ file) ps h =
    rw (read_lines-append file ps h)
      (next_punch-joined (from_json (object raw)) (read_lines file) ps)

-- After `add`, an undisturbed `drain` returns the punches that the file held before, then the added
-- ones, in order, and leaves an empty file: if no line of the old file raises a `TypeError`, and the
-- times of the added punches are valid ones of years with four digits.
pub drain-add :
    (file : List Line) (qs ps : List Punch)
    → read_lines file ≡ ok qs
    → are_writable ps ≡ true
    → drain no_fault (add ps file) ≡ (ok (qs ++ ps), [])
drain-add file qs ps h k = rw (read_lines-append file ps k, h) refl

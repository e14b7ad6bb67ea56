-- ===== src/Sync/Spool.antt =====
-- The class PunchSpool of sync/spool.py. The file is its lines, a missing file is an empty one, and
-- a run of `drain` is told which of its calls of the operating system fails.
pub mod Drain
use pumo_bio_metric.Prelude.{
  List, [], ◌∷◌, ◌++◌, ℕ, map, true, false, not, Bool, Result, ok, err, count_by,
}
use pumo_bio_metric.Sync.Punch.{
  Punch, Line, blank, LineError, bad_line, type_error, to_json, from_json,
}

pub data Fault : Type 0 where
  no_fault replace_fails read_fails : Fault

abbrev is_blank : Line → Bool
is_blank blank = true
is_blank _ = false

-- `pending`
unfoldable pub pending : List Line → ℕ
unfolding count_by
pending file = count_by (λ l. not (is_blank l)) file

-- `add`, and `restore`
abbrev pub add : List Punch → List Line → List Line
add punches file = file ++ map to_json punches

abbrev pub next_punch :
    Result LineError Punch → Result LineError (List Punch) → Result LineError (List Punch)
next_punch (err type_error) rest = err type_error
next_punch (err bad_line) rest = rest
next_punch (ok p) (ok ps) = ok (p ∷ ps)
next_punch (ok p) (err e) = err e

-- The loop of `drain`, which only a `ValueError` or a `KeyError` does not stop.
unfoldable pub read_lines : List Line → Result LineError (List Punch)
unfolding from_json
read_lines [] = ok []
read_lines (blank ∷ lines) = read_lines lines
read_lines (line ∷ lines) = next_punch (from_json line) (read_lines lines)

-- `drain`: what it returns or raises, and the file that it leaves
abbrev pub drain : Fault → List Line → Result LineError (List Punch) × List Line
drain no_fault file = (read_lines file, [])
drain replace_fails file = (ok [], file)
drain read_fails file = (ok [], [])

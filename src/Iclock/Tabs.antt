-- ===== src/Iclock/Tabs.antt =====
-- The lines of punches that the readers send: PIN, time, state, kind of verification and work code
-- with tabs between them.
use pumo_bio_metric.Prelude.{
  ℕ, ◌≡◌, refl, arith, Bool, true, false, not, ◌||◌, List, [], ◌∷◌, ◌++◌, map, filter_by,
}
use pumo_bio_metric.Text.{Text, codes, strip, upper, has_code, is_empty}
use pumo_bio_metric.Text.Split.{includes, split_on}
use pumo_bio_metric.Iclock.Lines.{Fields, key_value_fields, tab_parts, tab_fields, fields_of}

-- A field of such a line: not empty, without a tab, and without blanks around it.
abbrev pub IsField : Text → Type 0
IsField x = (is_empty x ≡ false) × (has_code 9 x ≡ false) × (strip x ≡ x)

abbrev pub tab_line : Fields → Text
tab_line f =
    f.pin ++ (9 ∷ (f.timestamp ++ (9 ∷ (f.status ++ (9 ∷ (f.verify_type ++ (9 ∷ f.work_code)))))))

split_on-field :
    (a : ℕ) (x rest : Text)
    → has_code a x ≡ false
    → split_on a (x ++ (a ∷ rest)) ≡ x ∷ split_on a rest
unfolding split_on has_code
split_on-field a [] rest h = ground arith
split_on-field a (c ∷ x) rest h = ground (arith, split_on-field a x rest)

split_on-last : (a : ℕ) (x : Text) → has_code a x ≡ false → split_on a x ≡ x ∷ []
unfolding split_on has_code
split_on-last a [] h = refl
split_on-last a (c ∷ x) h = ground (arith, split_on-last a x)

-- The parts of a line of fields are the fields.
abbrev tab_filter : Text → Bool
tab_filter p = not (is_empty (strip p)) || is_empty p

filter_by-field :
    (x : Text) (xs : List Text)
    → IsField x
    → map strip (filter_by tab_filter (x ∷ xs)) ≡ x ∷ map strip (filter_by tab_filter xs)
unfolding filter_by
filter_by-field x xs (e, _, t) = rw (t, e, t) refl

filter_by-nil : map strip (filter_by tab_filter []) ≡ []
unfolding filter_by
filter_by-nil = refl

tab_parts-tab_line :
    (f : Fields)
    → IsField f.pin
    → IsField f.timestamp
    → IsField f.status
    → IsField f.verify_type
    → IsField f.work_code
    → tab_parts (tab_line f) ≡ f.pin ∷ f.timestamp ∷ f.status ∷ f.verify_type ∷ f.work_code ∷ []
unfolding tab_parts
tab_parts-tab_line f p t s v w =
    rw
      (
        split_on-field 9 f.pin _ p.1,
        split_on-field 9 f.timestamp _ t.1,
        split_on-field 9 f.status _ s.1,
        split_on-field 9 f.verify_type _ v.1,
        split_on-last 9 f.work_code w.1,
        filter_by-field _ _ p,
        filter_by-field _ _ t,
        filter_by-field _ _ s,
        filter_by-field _ _ v,
        filter_by-field _ _ w,
        filter_by-nil,
      )
      refl

-- Reading a line of fields gives back its fields, when the time has a dash and when, in upper case,
-- neither "PIN=" nor "TIME=" stands in the line.
pub fields_of-tab_line :
    (now : Text) (f : Fields)
    → IsField f.pin
    → IsField f.timestamp
    → IsField f.status
    → IsField f.verify_type
    → IsField f.work_code
    → has_code b'-' f.timestamp ≡ true
    → includes (codes "PIN=") (upper (tab_line f)) ≡ false
    → includes (codes "TIME=") (upper (tab_line f)) ≡ false
    → fields_of now (tab_line f) ≡ f
unfolding fields_of key_value_fields tab_fields
fields_of-tab_line now f p t s v w dash no_pin no_time =
    rw (no_pin, no_time, tab_parts-tab_line f p t s v w, p.0, s.0, v.0, w.0, dash) refl

-- ===== src/Iclock/Lines.antt =====
-- What router/iclock.py reads out of the bodies that the readers push: `is_header_or_metadata_line`
-- and the line formats of `parse_attlog`.
use pumo_bio_metric.Prelude.{
  ℕ, zero, suc, Bool, not, ◌&&◌, ◌||◌, List, [], ◌∷◌, ◌++◌, map, filter_by, any, length, leb,
  if◌then◌else◌, Option, none, some,
}
use pumo_bio_metric.Text.{Text, codes, strip, lower, upper, startswith, has_code, is_empty}
use pumo_bio_metric.Text.Split.{includes, split_on, words, cut, body_lines}
use pumo_bio_metric.Dict
use pumo_bio_metric.Dict.{Dict}
use pumo_bio_metric.Migration.{first_given}

unfoldable pub header_prefixes : List Text
header_prefixes =
    codes "table="
    ∷ codes "stamp="
    ∷ codes "opstamp="
    ∷ codes "count="
    ∷ codes "oplog"
    ∷ codes "operlog"
    ∷ codes "attlog"
    ∷ codes "rtlog"
    ∷ codes "cdata"
    ∷ codes "#"
    ∷ codes "["
    ∷ codes "table "
    ∷ []

-- `is_header_or_metadata_line`
unfoldable pub is_header : Text → Bool
unfolding header_prefixes
is_header line = let l = strip (lower line) in is_empty l || any (startswith l) header_prefixes

-- What a line says of a punch.
pub record Fields : Type 0 where
  pub pin : Text
  pub timestamp : Text
  pub status : Text
  pub verify_type : Text
  pub work_code : Text

-- `kv_dict[k.strip().upper()] = v.strip()` for each item with a "="
unfoldable pub add_item : Option (Text × Text) → Dict Text → Dict Text
add_item none kv = kv
add_item (some (k, v)) kv = Dict.put kv (upper (strip k)) (strip v)

unfoldable pub key_values : List Text → Dict Text → Dict Text
key_values [] kv = kv
key_values (item ∷ items) kv = key_values items (add_item (cut b'=' item) kv)

-- kv.get(k, default)
abbrev pub value_or : Text → Option Text → Text
value_or default none = default
value_or default (some v) = v

-- 1. Key=value; only with a PIN and a time
unfoldable pub from_key_values : Dict Text → Option Fields
from_key_values kv =
    let pin =
      first_given
        (Dict.get kv (codes "PIN") ∷ Dict.get kv (codes "USERID") ∷ Dict.get kv (codes "ID") ∷ [])
        [] in
    let ts =
      first_given
        (Dict.get kv (codes "TIME")
          ∷ Dict.get kv (codes "TIMESTAMP")
          ∷ Dict.get kv (codes "DATETIME")
          ∷ [])
        [] in
    if is_empty pin || is_empty ts
    then none
    else some (record {
      pin = pin;
      timestamp = ts;
      status = value_or (codes "0") (Dict.get kv (codes "STATUS"));
      verify_type =
          value_or (value_or (codes "1") (Dict.get kv (codes "VERIFYTYPE")))
            (Dict.get kv (codes "VERIFY"));
      work_code = value_or (codes "0") (Dict.get kv (codes "WORKCODE"));
    })

unfoldable pub key_value_fields : Text → Option Fields
key_value_fields line =
    if includes (codes "PIN=") (upper line) || includes (codes "TIME=") (upper line)
    then from_key_values (key_values (words line) [])
    else none

-- The n-th part, or the default where there is none.
abbrev pub part_or : Text → ℕ → List Text → Text
part_or default n [] = default
part_or default zero (p ∷ ps) = p
part_or default (suc n) (p ∷ ps) = part_or default n ps

-- The same, where an empty part counts as missing.
abbrev pub full_part_or : Text → ℕ → List Text → Text
full_part_or default n ps = let p = part_or [] n ps in if is_empty p then default else p

-- `[p.strip() for p in line.split("\t") if p.strip() or p == ""]`
unfoldable pub tab_parts : Text → List Text
tab_parts line =
    map strip (filter_by (λ p. not (is_empty (strip p)) || is_empty p) (split_on 9 line))

-- `ts_candidate`
abbrev pub tab_time : List Text → Text
tab_time parts =
    let t = part_or [] 1 parts in
    let next = part_or [] 2 parts in
    if leb 3 (length parts)
      && (not (has_code b'-' t) && (not (has_code b':' t) && has_code b'-' next))
    then t ++ (32 ∷ next)
    else t

-- 2. Tabs
unfoldable pub tab_fields : List Text → Option Fields
tab_fields parts =
    if leb 2 (length parts) && not (is_empty (part_or [] 0 parts))
    then some (record {
      pin = part_or [] 0 parts;
      timestamp = tab_time parts;
      status = full_part_or (codes "0") 2 parts;
      verify_type = full_part_or (codes "1") 3 parts;
      work_code = full_part_or (codes "0") 4 parts;
    })
    else none

abbrev pub looks_like_date : Text → Bool
looks_like_date t = has_code b'-' t || has_code b'/' t

-- 3. Blanks
unfoldable pub space_fields : List Text → Option Fields
space_fields parts =
    if leb 3 (length parts)
      && (looks_like_date (part_or [] 1 parts) && has_code b':' (part_or [] 2 parts))
    then some (record {
      pin = part_or [] 0 parts;
      timestamp = part_or [] 1 parts ++ (32 ∷ part_or [] 2 parts);
      status = part_or (codes "0") 3 parts;
      verify_type = part_or (codes "1") 4 parts;
      work_code = part_or (codes "0") 5 parts;
    })
    else none

-- 4. Commas
unfoldable pub comma_fields : List Text → Option Fields
comma_fields parts =
    if leb 2 (length parts)
      && (looks_like_date (part_or [] 1 parts) || has_code b':' (part_or [] 1 parts))
    then some (record {
      pin = part_or [] 0 parts;
      timestamp = part_or [] 1 parts;
      status = part_or (codes "0") 2 parts;
      verify_type = part_or (codes "1") 3 parts;
      work_code = part_or (codes "0") 4 parts;
    })
    else none

-- 5. What no format fits, with the time of the service
abbrev pub raw_fields : Text → List Text → Fields
raw_fields now parts = record {
  pin = part_or (codes "DEVICE_USER") 0 parts;
  timestamp = now;
  status = codes "0";
  verify_type = codes "1";
  work_code = codes "0";
}

abbrev pub or_try : Option Fields → Option Fields → Option Fields
or_try none o = o
or_try (some f) o = some f

abbrev pub or_raw : Option Fields → Fields → Fields
or_raw none f = f
or_raw (some f) _ = f

-- The formats in their order.
unfoldable pub fields_of : Text → Text → Fields
fields_of now line =
    let commas = filter_by (λ p. not (is_empty p)) (map strip (split_on b',' line)) in
    or_raw
      (or_try (key_value_fields line) (
        or_try (tab_fields (tab_parts line))
          (or_try (space_fields (words line)) (comma_fields commas))))
      (raw_fields now (tab_parts line))

-- The lines of `parse_attlog` that are not skipped.
unfoldable pub data_lines : Text → List Text
data_lines body = filter_by (λ l. not (is_header l)) (body_lines body)

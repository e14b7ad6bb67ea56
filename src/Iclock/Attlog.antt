-- ===== src/Iclock/Attlog.antt =====
-- `parse_attlog`
use pumo_bio_metric.Prelude.{
  ℕ, suc, ◌+◌, ◌≡◌, ◌≤◌, refl, Bool, not, filter_by, ap, arith, List, [], ◌∷◌, map, length,
  if◌then◌else◌, none,
}
use pumo_bio_metric.Text.{Text, codes, lstrip, rstrip, strip, is_empty}
use pumo_bio_metric.Text.Split.{split_on, add_first, replace_code, body_lines}
use pumo_bio_metric.Iclock.{UserInfo, PunchRow, Iclock, Outside}
use pumo_bio_metric.Iclock.Lines.{Fields, fields_of, data_lines, is_header}
use pumo_bio_metric.Iclock.Names.{name_in, role_in, get_user_info}

abbrev pub row : Text → Text → Fields → UserInfo → PunchRow
row sn line f u = record {
  sn = if is_empty sn then codes "UNKNOWN" else sn;
  user_id = f.pin;
  user_name = name_in f.pin u;
  user_role = role_in u;
  timestamp = f.timestamp;
  status = f.status;
  verify_type = f.verify_type;
  work_code = f.work_code;
  raw = line;
  status_label = none;
  verify_label = none;
}

-- The loop over the lines; `now` is the time of the service, as text.
unfoldable pub parse_lines : Outside → Text → Text → List Text → Iclock → List PunchRow × Iclock
parse_lines out now sn [] s = ([], s)
parse_lines out now sn (line ∷ lines) s =
    let f = fields_of now line in
    let (u, s') = get_user_info out f.pin s in
    let (rows, s'') = parse_lines out now sn lines s' in (row sn line f u ∷ rows, s'')

-- `parse_attlog`
unfoldable pub parse_attlog : Outside → Text → Text → Text → Iclock → List PunchRow × Iclock
unfolding parse_lines
parse_attlog out now body sn s = parse_lines out now sn (data_lines body) s

-- What a row says of its punch.
abbrev pub fields : PunchRow → Fields
fields p = record {
  pin = p.user_id;
  timestamp = p.timestamp;
  status = p.status;
  verify_type = p.verify_type;
  work_code = p.work_code;
}

raws-parse_lines :
    (out : Outside) (now sn : Text) (lines : List Text) (s : Iclock)
    → map (λ (p : PunchRow). p.raw) (parse_lines out now sn lines s).0 ≡ lines
unfolding parse_lines
raws-parse_lines out now sn [] s = refl
raws-parse_lines out now sn (line ∷ lines) s =
    ap (λ ls. line ∷ ls)
      (raws-parse_lines out now sn lines (get_user_info out (fields_of now line).pin s).1)

fields-parse_lines :
    (out : Outside) (now sn : Text) (lines : List Text) (s : Iclock)
    → map fields (parse_lines out now sn lines s).0 ≡ map (fields_of now) lines
unfolding parse_lines
fields-parse_lines out now sn [] s = refl
fields-parse_lines out now sn (line ∷ lines) s =
    ap (λ fs. fields_of now line ∷ fs)
      (fields-parse_lines out now sn lines (get_user_info out (fields_of now line).pin s).1)

length-filter_by : {A : Type 0} (p : A → Bool) (xs : List A) → length (filter_by p xs) ≤ length xs
unfolding filter_by
length-filter_by p [] = omega arith
length-filter_by p (x ∷ xs) = ground (arith, length-filter_by p xs)

length-replace_code : (a b : ℕ) (s : Text) → length (replace_code a b s) ≡ length s
unfolding replace_code
length-replace_code a b [] = refl
length-replace_code a b (c ∷ s) = ap suc (length-replace_code a b s)

-- The parts of a text that are not blank.
abbrev filled : List Text → List Text
filled parts = filter_by (λ l. not (is_empty l)) (map strip parts)

length-filled-add_first :
    (c : ℕ) (parts : List Text) → length (filled (add_first c parts)) ≤ length (filled parts) + 1
unfolding filter_by
length-filled-add_first c [] = ground arith
length-filled-add_first c (p ∷ ps) = ground arith

-- Each part that is not blank has a character of the text.
length-filled-split_on : (a : ℕ) (s : Text) → length (filled (split_on a s)) ≤ length s
unfolding split_on filter_by strip lstrip rstrip
length-filled-split_on a [] = omega arith
length-filled-split_on a (c ∷ s) =
    ground (arith, length-filled-split_on a s, length-filled-add_first c (split_on a s))

length-data_lines : (body : Text) → length (data_lines body) ≤ length body
unfolding data_lines body_lines
length-data_lines body = omega (
  arith,
  length-filter_by (λ l. not (is_header l)) (body_lines body),
  length-filled-split_on 10 (replace_code 13 10 body),
  length-replace_code 13 10 body,
)

length-parse_lines :
    (out : Outside) (now sn : Text) (lines : List Text) (s : Iclock)
    → length (parse_lines out now sn lines s).0 ≡ length lines
unfolding parse_lines
length-parse_lines out now sn [] s = refl
length-parse_lines out now sn (line ∷ lines) s =
    ap suc (length-parse_lines out now sn lines (get_user_info out (fields_of now line).pin s).1)

-- A pushed body of punches gives one row for each of its lines that is neither blank nor a header,
-- in order: with the line as it stands, and with the fields that the first format that fits reads
-- from it; there are at most as many rows as the body has characters.
pub parse_attlog-data_lines :
    (out : Outside) (now body sn : Text) (s : Iclock)
    → (map (λ (p : PunchRow). p.raw) (parse_attlog out now body sn s).0 ≡ data_lines body)
      × (map fields (parse_attlog out now body sn s).0 ≡ map (fields_of now) (data_lines body))
      × (length (parse_attlog out now body sn s).0 ≤ length body)
unfolding parse_attlog
parse_attlog-data_lines out now body sn s = (
  raws-parse_lines out now sn _ s,
  fields-parse_lines out now sn _ s,
  omega (arith, length-data_lines body, length-parse_lines out now sn (data_lines body) s),
)

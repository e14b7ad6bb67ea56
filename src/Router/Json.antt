-- ===== src/Router/Json.antt =====
-- The values that `request.json()` returns, and what the routes ask of a value: its truth, `str` and
-- `int`. Numbers with a fraction or an exponent are left out.
use pumo_bio_metric.Prelude.{
  Bool, true, false, not, suc, List, [], ◌∷◌, ◌++◌, if◌then◌else◌, Option, none, some, Result, ok,
  err,
}
use pumo_bio_metric.Text.{Text, codes, same, is_empty}
use pumo_bio_metric.Text.Numbers.{ℤ, pos, negsuc, same_ℤ, int, str}

mutual
  pub data Json : Type 0 where
    null : Json
    bool : Bool → Json
    number : ℤ → Json
    text : Text → Json
    array : Elements → Json
    object : Members → Json

  pub data Elements : Type 0 where
    no_elements : Elements
    element : Json → Elements → Elements

  -- A dict, which has each key once.
  pub data Members : Type 0 where
    no_members : Members
    member : Text → Json → Members → Members

-- `bool(value)`
unfoldable pub is_true : Json → Bool
is_true null = false
is_true (bool b) = b
is_true (number n) = not (same_ℤ n (pos 0))
is_true (text s) = not (is_empty s)
is_true (array no_elements) = false
is_true (array (element _ _)) = true
is_true (object no_members) = false
is_true (object (member _ _ _)) = true

abbrev pub signed : ℤ → Text
signed (pos n) = str n
signed (negsuc n) = codes "-" ++ str (suc n)

-- `str(value)`. `repr` gives the text of an array or an object.
unfoldable pub format : (Json → Text) → Json → Text
format repr null = codes "None"
format repr (bool b) = if b then codes "True" else codes "False"
format repr (number n) = signed n
format repr (text s) = s
format repr (array es) = repr (array es)
format repr (object ms) = repr (object ms)

-- What a route may raise on a body of the wrong shape.
pub data Exception : Type 0 where
  attribute_error type_error value_error : Exception

abbrev pub or_value_error : Option ℤ → Result Exception ℤ
or_value_error (some n) = ok n
or_value_error none = err value_error

-- `int(value)`
unfoldable pub to_int : Json → Result Exception ℤ
to_int null = err type_error
to_int (bool b) = ok (pos (if b then 1 else 0))
to_int (number n) = ok n
to_int (text s) = or_value_error (int s)
to_int (array es) = err type_error
to_int (object ms) = err type_error

-- `data.get(key, default)`
unfoldable pub get_or : Json → Members → Text → Json
get_or default no_members key = default
get_or default (member k v ms) key = if same k key then v else get_or default ms key

-- `data.get(key)`
abbrev pub get : Members → Text → Json
get = get_or null

-- `data.get(k1) or data.get(k2) or ... or default`
unfoldable pub first_true : Json → Members → List Text → Json
first_true default ms [] = default
first_true default ms (k ∷ ks) =
    let rest = first_true default ms ks in if is_true (get ms k) then get ms k else rest

abbrev pub elements : Elements → List Json
elements no_elements = []
elements (element v es) = v ∷ elements es

abbrev pub keys : Members → List Json
keys no_members = []
keys (member k v ms) = text k ∷ keys ms

abbrev pub characters : Text → List Json
characters [] = []
characters (c ∷ s) = text (c ∷ []) ∷ characters s

-- The values that `for u in value` goes through: the elements of an array, the keys of an object
-- and the characters of a text.
unfoldable pub iterate : Json → Result Exception (List Json)
iterate null = err type_error
iterate (bool b) = err type_error
iterate (number n) = err type_error
iterate (text s) = ok (characters s)
iterate (array es) = ok (elements es)
iterate (object ms) = ok (keys ms)

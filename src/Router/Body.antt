-- ===== src/Router/Body.antt =====
-- Reading the body of a request: the two ways in which a route ends before it calls anything, and
-- the fields that the routes read in the same way.
use pumo_bio_metric.Prelude.{
  ℕ, Bool, false, List, [], ◌∷◌, if◌then◌else◌, Option, none, some, Result, ok, err,
}
use pumo_bio_metric.Text.{Text, codes, strip, lower}
use pumo_bio_metric.Text.Numbers.{ℤ, pos}
use pumo_bio_metric.Router.Json.{
  Json, Members, bool, number, text, object, Exception, attribute_error, format, is_true, to_int,
  get_or, first_true,
}

-- A reply with the status 400 and a text, or an exception that leaves the route.
pub data Stop : Type 0 where
  refused : Stop
  raised : Exception → Stop

infixl 5 ◌>>=◌ ◌>>◌
abbrev pub ◌>>=◌ : {A B : Type 0} → Result Stop A → (A → Result Stop B) → Result Stop B
ok a >>= f = f a
err e >>= f = err e

abbrev pub ◌>>◌ : {A B : Type 0} → Result Stop A → Result Stop B → Result Stop B
m >> k = m >>= λ _. k

-- An exception that no clause catches.
abbrev pub lift : {A : Type 0} → Result Exception A → Result Stop A
lift (ok a) = ok a
lift (err e) = err (raised e)

-- An exception that a clause turns into a refusal.
abbrev pub or_refuse : {A : Type 0} → Result Exception A → Result Stop A
or_refuse (ok a) = ok a
or_refuse (err e) = err refused

abbrev pub refuse_if : Bool → Result Stop (Unit {0})
refuse_if b = if b then err refused else ok tt

-- `data = await request.json()`, with `none` for a body that is no JSON. A value that is no object has no
-- method `get`.
unfoldable pub read_body : Option Json → Result Stop Members
read_body none = err refused
read_body (some (object ms)) = ok ms
read_body (some _) = err (raised attribute_error)

-- `int(data.get(key, default))`
unfoldable pub int_field : Text → ℕ → Members → Result Exception ℤ
unfolding to_int get_or
int_field key default ms = to_int (get_or (number (pos default)) ms key)

-- `bool(data.get(key, False))`
unfoldable pub flag : Text → Members → Bool
flag key ms = is_true (get_or (bool false) ms key)

-- `s or None`
abbrev pub or_none : Text → Option Text
or_none [] = none
or_none (c ∷ s) = some (c ∷ s)

module _ (repr : Json → Text) where
  -- `str(data.get(k1) or ... or "").strip()`
  unfoldable pub text_field : List Text → Members → Text
  text_field ks ms = strip (format repr (first_true (text []) ms ks))

  -- `str(data.get(key, default)).lower().strip()`
  unfoldable pub word_field : Text → Text → Members → Text
  word_field key default ms = strip (lower (format repr (get_or (text default) ms key)))

  -- `str(data.get("ip", "")).strip() or None`
  unfoldable pub ip_field : Members → Option Text
  ip_field ms = or_none (strip (format repr (get_or (text []) ms (codes "ip"))))

-- What a route answers: nothing but the stop, or a status with a content.
pub data Response (C : Type 0) : Type 0 where
  stopped : Stop → Response C
  answered : ℕ → C → Response C

-- The status of a response, with `none` for an exception that leaves the route.
unfoldable pub status : {C : Type 0} → Response C → Option ℕ
status (stopped refused) = some 400
status (stopped (raised e)) = none
status (answered n c) = some n

-- `200 if res.get("ok") else 400`
abbrev pub status_of : Bool → ℕ
status_of b = if b then 200 else 400

-- Nothing is called where the reading of the body stopped.
unfoldable pub handle :
    {A C W : Type 0} → Result Stop A → (A → W → Response C × W) → W → Response C × W
handle (err e) call w = (stopped e, w)
handle (ok a) call w = call a w

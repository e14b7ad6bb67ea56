-- ===== src/Dict.antt =====
-- Python's `dict` with text keys, in insertion order.
use pumo_bio_metric.Prelude.{◌≡◌, refl, List, [], ◌∷◌, arith, if◌then◌else◌, Option, none, some}
use pumo_bio_metric.Text.{Text, same, same_iff, same_refl}

abbrev pub Dict {ℓ} : Type ℓ → Type ℓ
Dict V = List (Text × V)

module _ {ℓ} {V : Type ℓ} where
  -- d.get(k)
  unfoldable pub get : Dict V → Text → Option V
  get [] k = none
  get ((j, v) ∷ d) k = if same j k then some v else get d k

  -- d[k] = v
  unfoldable pub put : Dict V → Text → V → Dict V
  put [] k v = (k, v) ∷ []
  put ((j, w) ∷ d) k v = if same j k then (j, v) ∷ d else (j, w) ∷ put d k v

  -- d.pop(k, None). Every entry of the key goes; a dict has at most one.
  unfoldable pub remove : Dict V → Text → Dict V
  remove [] k = []
  remove ((j, w) ∷ d) k = let rest = remove d k in if same j k then rest else (j, w) ∷ rest

  -- d.update(e)
  unfoldable pub update : Dict V → Dict V → Dict V
  unfolding put
  update d [] = d
  update d ((k, v) ∷ e) = update (put d k v) e

  pub get-put :
      (d : Dict V) (k j : Text) (v : V) → get (put d k v) j ≡ (if same k j then some v else get d j)
  unfolding get put
  get-put [] k j v = refl
  get-put ((i, w) ∷ d) k j v =
      ground (arith, get-put d k j v, same_iff i k, same_iff i j, same_iff k j)

  pub get-remove :
      (d : Dict V) (k j : Text) → get (remove d k) j ≡ (if same k j then none else get d j)
  unfolding get remove
  get-remove [] k j = ground arith
  get-remove ((i, w) ∷ d) k j =
      ground (arith, get-remove d k j, same_iff i k, same_iff i j, same_iff k j)

  pub get-put_self : (d : Dict V) (k : Text) (v : V) → get (put d k v) k ≡ some v
  get-put_self d k v = ground (arith, get-put d k k v, same_refl k)

pub ruleset dict_laws = (get-put, get-remove, get-put_self)

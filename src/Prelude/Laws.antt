-- ===== src/Prelude/Laws.antt =====
-- The laws of the list idioms.
use Prim.Native.Nat.{◌+◌, ◌≤◌}
use mathlib.Core.Path.{◌≡◌, refl}
use mathlib.Core.Bool.{Bool, true, false, ◌||◌}
use mathlib.Core.Option.{none, some}
use mathlib.Core.List.{List, [], ◌∷◌, ◌++◌}
use native.Mathlib.Omega.{arith}
use pumo_bio_metric.Prelude.Lists.{length, find?, any, filter_by, update_first, count_by}

module _ {ℓ} {A : Type ℓ} where
  pub length-append : (xs ys : List A) → length (xs ++ ys) ≡ length xs + length ys
  length-append [] ys = omega arith
  length-append (x ∷ xs) ys = omega (arith, length-append xs ys)

  pub find?-append :
      (p : A → Bool) (xs ys : List A)
      → find? p (xs ++ ys) ≡ elim (find? p xs) [ some x ↦ some x | none ↦ find? p ys ]
  unfolding find?
  find?-append p [] ys = refl
  find?-append p (x ∷ xs) ys = ground (arith, find?-append p xs ys)

  -- What a search returns passed the test.
  pub find?-holds : (p : A → Bool) (xs : List A) (a : A) → find? p xs ≡ some a → p a ≡ true
  unfolding find?
  find?-holds p [] a h = ground arith
  find?-holds p (x ∷ xs) a h = ground (arith, find?-holds p xs a)

  pub any-find? :
      (p : A → Bool) (xs : List A) → any p xs ≡ elim (find? p xs) [ some _ ↦ true | none ↦ false ]
  unfolding any find?
  any-find? p [] = refl
  any-find? p (x ∷ xs) = ground (arith, any-find? p xs)

  pub any-append : (p : A → Bool) (xs ys : List A) → any p (xs ++ ys) ≡ (any p xs || any p ys)
  unfolding any
  any-append p [] ys = refl
  any-append p (x ∷ xs) ys = ground (arith, any-append p xs ys)

  -- A filter that keeps all that a search looks for does not change what it finds.
  pub find?-filter_by :
      (p q : A → Bool) (xs : List A)
      → ((a : A) → p a ≡ true → q a ≡ true)
      → find? p (filter_by q xs) ≡ find? p xs
  unfolding find? filter_by
  find?-filter_by p q [] h = refl
  find?-filter_by p q (x ∷ xs) h = ground (arith, find?-filter_by p q xs h, h x)

  -- A filter that drops all that a search looks for leaves nothing to find.
  pub find?-filter_by-none :
      (p q : A → Bool) (xs : List A)
      → ((a : A) → p a ≡ true → q a ≡ false)
      → find? p (filter_by q xs) ≡ none
  unfolding find? filter_by
  find?-filter_by-none p q [] h = refl
  find?-filter_by-none p q (x ∷ xs) h = ground (arith, find?-filter_by-none p q xs h, h x)

  -- A change of the first match is what the same search finds next.
  pub find?-update_first_self :
      (p : A → Bool) (f : A → A) (xs : List A) (a : A)
      → ((b : A) → p b ≡ true → p (f b) ≡ true)
      → find? p xs ≡ some a
      → find? p (update_first p f xs) ≡ some (f a)
  unfolding find? update_first
  find?-update_first_self p f [] a k h = ground arith
  find?-update_first_self p f (x ∷ xs) a k h =
      ground (arith, find?-update_first_self p f xs a k, k x)

  -- A search that matches neither what was changed nor what it became finds what it found.
  pub find?-update_first_other :
      (p q : A → Bool) (f : A → A) (xs : List A)
      → ((a : A) → p a ≡ true → (q a ≡ false) × (q (f a) ≡ false))
      → find? q (update_first p f xs) ≡ find? q xs
  unfolding find? update_first
  find?-update_first_other p q f [] h = refl
  find?-update_first_other p q f (x ∷ xs) h =
      ground (arith, find?-update_first_other p q f xs h, h x)

  pub count_by-le-length : (p : A → Bool) (xs : List A) → count_by p xs ≤ length xs
  unfolding count_by
  count_by-le-length p [] = omega arith
  count_by-le-length p (x ∷ xs) = ground (arith, count_by-le-length p xs)

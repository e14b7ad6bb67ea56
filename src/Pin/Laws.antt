-- ===== src/Pin/Laws.antt =====
-- The search for a free number ends at the least one.
use pumo_bio_metric.Prelude.{
  ℕ, zero, suc, ◌+◌, ◌≤◌, ◌<◌, ◌≡◌, refl, true, false, List, [], ◌∷◌, arith, leb, length,
  if◌then◌else◌, any, Bool-cases, inl, inr, some,
}
use pumo_bio_metric.Text.{Text, same, same_iff}
use pumo_bio_metric.Text.Numbers.{ℤ, pos, negsuc, int, int-str}
use pumo_bio_metric.Pin.{contains, next_free, free_number, int_pins, mapped_pin, first_candidate}

-- How many of the numbers are not below `c`.
abbrev at_least : ℕ → List ℤ → ℕ
at_least c [] = 0
at_least c (pos n ∷ xs) = (if leb c n then 1 else 0) + at_least c xs
at_least c (negsuc n ∷ xs) = at_least c xs

at_least-le-length : (c : ℕ) (xs : List ℤ) → at_least c xs ≤ length xs
at_least-le-length c [] = omega arith
at_least-le-length c (pos n ∷ xs) = ground (arith, at_least-le-length c xs)
at_least-le-length c (negsuc n ∷ xs) = omega (arith, at_least-le-length c xs)

at_least_mono : (c : ℕ) (xs : List ℤ) → at_least (c + 1) xs ≤ at_least c xs
at_least_mono c [] = omega arith
at_least_mono c (pos n ∷ xs) = ground (arith, at_least_mono c xs)
at_least_mono c (negsuc n ∷ xs) = at_least_mono c xs

-- A number in use is one fewer to come.
at_least-contains :
    (c : ℕ) (xs : List ℤ) → contains xs (pos c) ≡ true → at_least (c + 1) xs < at_least c xs
at_least-contains c [] h = ground arith
at_least-contains c (pos n ∷ xs) h = ground (arith, at_least-contains c xs, at_least_mono c xs)
at_least-contains c (negsuc n ∷ xs) h = ground (arith, at_least-contains c xs)

next_free-free :
    (f : ℕ) (used : List ℤ) (c : ℕ)
    → at_least c used < f
    → contains used (pos (next_free f used c)) ≡ false
unfolding next_free
next_free-free zero used c h = elim h [ ]
next_free-free (suc f) used c h = elim (Bool-cases (contains used (pos c))) [
  | inl taken ↦
      rw taken (next_free-free f used (c + 1) (omega (arith, at_least-contains c used taken)))
  | inr free ↦ rw free free
]

next_free-least :
    (f : ℕ) (used : List ℤ) (c k : ℕ)
    → c ≤ k
    → k < next_free f used c
    → contains used (pos k) ≡ true
unfolding next_free
next_free-least zero used c k h l = absurd (omega arith)
next_free-least (suc f) used c k h l = ground (arith, next_free-least f used (c + 1) k)

next_free-ge : (f : ℕ) (used : List ℤ) (c : ℕ) → c ≤ next_free f used c
unfolding next_free
next_free-ge zero used c = omega arith
next_free-ge (suc f) used c = ground (arith, next_free-ge f used (c + 1))

-- The search ends, at a number from the candidate on that is not in use, and every number that it
-- passed over is in use.
pub free_number-least :
    (used : List ℤ) (c : ℕ)
    → (contains used (pos (free_number used c)) ≡ false)
      × (c ≤ free_number used c)
      × ((k : ℕ) → c ≤ k → k < free_number used c → contains used (pos k) ≡ true)
unfolding free_number
free_number-least used c = (
  next_free-free (suc (length used)) used c (omega (arith, at_least-le-length c used)),
  next_free-ge (suc (length used)) used c,
  next_free-least (suc (length used)) used c,
)

-- A PIN whose integer is not in use is the PIN of nobody.
int_pins-fresh :
    (pins : List Text) (pin : Text) (n : ℕ)
    → int pin ≡ some (pos n)
    → contains (int_pins pins) (pos n) ≡ false
    → any (same pin) pins ≡ false
unfolding int_pins any
int_pins-fresh [] pin n e h = refl
int_pins-fresh (p ∷ ps) pin n e h = ground (arith, same_iff pin p, int_pins-fresh ps pin n e)

-- The PIN that a colliding user is given is free on the reader.
pub mapped_pin-free :
    (pins : List Text) (pin : Text) → any (same (mapped_pin pins pin)) pins ≡ false
unfolding mapped_pin
mapped_pin-free pins pin =
    int_pins-fresh pins _ _ (int-str _) (free_number-least (int_pins pins) (first_candidate pin)).0

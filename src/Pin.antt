-- ===== src/Pin.antt =====
-- The search for a free number: `while cand in used: cand += 1`, which core/device_migration.py
-- writes out for PINs in three places and for the uids of a reader in a fourth.
pub mod Laws
use pumo_bio_metric.Prelude.{
  ℕ, zero, suc, ◌+◌, Bool, ◌||◌, false, List, [], ◌∷◌, some, length, if◌then◌else◌, any,
}
use pumo_bio_metric.Text.{Text, isdigit}
use pumo_bio_metric.Text.Numbers.{ℤ, pos, same_ℤ, int, str}

abbrev pub contains : List ℤ → ℤ → Bool
contains [] a = false
contains (x ∷ xs) a = same_ℤ a x || contains xs a

-- The loop, on fuel.
next_free : ℕ → List ℤ → ℕ → ℕ
next_free zero used cand = cand
next_free (suc f) used cand =
    let later = next_free f used (cand + 1) in if contains used (pos cand) then later else cand

-- One round more than there are numbers in use is enough.
unfoldable pub free_number : List ℤ → ℕ → ℕ
unfolding next_free
free_number used cand = next_free (suc (length used)) used cand

-- `used_pins`: the PINs that are integers
unfoldable pub int_pins : List Text → List ℤ
unfolding int
int_pins [] = []
int_pins (p ∷ ps) = let rest = int_pins ps in elim (int p) [ some n ↦ n ∷ rest | _ ↦ rest ]

-- `cand = int(pin) if pin.isdigit() else 1`
unfoldable pub first_candidate : Text → ℕ
unfolding isdigit int
first_candidate pin = if isdigit pin then elim (int pin) [ some (pos n) ↦ n | _ ↦ 1 ] else 1

-- The PIN for a user whose own PIN `pin` another user of the reader has.
unfoldable pub mapped_pin : List Text → Text → Text
unfolding free_number int_pins first_candidate str
mapped_pin pins pin = str (free_number (int_pins pins) (first_candidate pin))

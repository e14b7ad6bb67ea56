-- ===== src/Hardware/Inventory/Same.antt =====
-- The two branches of fetch_device_users, for hardware and for simulated readers, on the same users.
use pumo_bio_metric.Prelude.{
  ℕ, ◌≡◌, refl, ◌==◌, true, false, not, List, [], ◌∷◌, ◌++◌, map, filter_by, length, if◌then◌else◌,
  arith, any, all,
}
use pumo_bio_metric.Text.{Text, is_empty}
use pumo_bio_metric.Dict.{Dict}
use pumo_bio_metric.Sim.{Finger, SimUser, has_uid}
use pumo_bio_metric.Sim.State.{AreDistinct}
use pumo_bio_metric.Sim.Inventory.{listed}
use pumo_bio_metric.Hardware.{HwUser, Template}
use pumo_bio_metric.Hardware.Inventory.{fids_of, shown_name, hw_listed}

abbrev pub as_hw : SimUser → HwUser
as_hw u = record {
  uid = u.uid;
  user_id = u.user_id;
  name = u.name;
  privilege = u.privilege;
  password = u.password;
  group_id = u.group_id;
  card = u.card;
}

abbrev own : ℕ → List Finger → List Template
own uid = map (λ f. record { uid = uid; finger = f })

-- The templates of a reader that has the fingerprints of the users.
abbrev pub templates_of : List SimUser → List Template
templates_of [] = []
templates_of (u ∷ us) = own u.uid u.fingers ++ templates_of us

abbrev fids : List Finger → List ℕ
fids = map (λ (f : Finger). f.fid)

fids_of-append :
    (uid n : ℕ) (fs : List Finger) (ts : List Template)
    → fids_of (own uid fs ++ ts) n ≡ (if uid == n then fids fs ++ fids_of ts n else fids_of ts n)
unfolding fids_of filter_by
fids_of-append uid n [] ts = ground arith
fids_of-append uid n (f ∷ fs) ts = ground (arith, fids_of-append uid n fs ts)

fids_of-absent :
    (n : ℕ) (us : List SimUser) → any (has_uid n) us ≡ false → fids_of (templates_of us) n ≡ []
unfolding any fids_of filter_by
fids_of-absent n [] h = refl
fids_of-absent n (u ∷ us) h =
    ground (arith, h, fids_of-append u.uid n u.fingers (templates_of us), fids_of-absent n us)

-- The templates tell the fingers of each of these users.
abbrev Fits : List Template → List SimUser → Type 0
Fits ts [] = Unit
Fits ts (u ∷ us) = (fids_of ts u.uid ≡ fids u.fingers) × Fits ts us

Fits-prepend :
    (uid : ℕ) (fs : List Finger) (ts : List Template) (us : List SimUser)
    → any (has_uid uid) us ≡ false
    → Fits ts us
    → Fits (own uid fs ++ ts) us
unfolding any
Fits-prepend uid fs ts [] h k = tt
Fits-prepend uid fs ts (u ∷ us) h k = (
  ground (arith, h, k.0, fids_of-append uid u.uid fs ts),
  Fits-prepend uid fs ts us (ground (arith, h)) k.1,
)

append_nil : (xs : List ℕ) → xs ++ [] ≡ xs
append_nil [] = refl
append_nil (x ∷ xs) = rw (append_nil xs) refl

templates_of-Fits : (us : List SimUser) → AreDistinct us → Fits (templates_of us) us
templates_of-Fits [] d = tt
templates_of-Fits (u ∷ us) d = (
  ground (
    arith,
    fids_of-append u.uid u.uid u.fingers (templates_of us),
    fids_of-absent u.uid us d.1,
    append_nil (fids u.fingers),
  ),
  Fits-prepend u.uid u.fingers (templates_of us) us d.1 (templates_of-Fits us d.2),
)

length-fids : (fs : List Finger) → length (fids fs) ≡ length fs
length-fids [] = refl
length-fids (f ∷ fs) = rw (length-fids fs) refl

hw_listed-as_hw :
    (names : Dict Text) (ts : List Template) (u : SimUser)
    → fids_of ts u.uid ≡ fids u.fingers
    → is_empty u.name ≡ false
    → hw_listed names ts (as_hw u) ≡ listed names u
unfolding hw_listed shown_name
hw_listed-as_hw names ts u h k = rw (h, k, length-fids u.fingers) refl

map-Fits :
    (names : Dict Text) (ts : List Template) (us : List SimUser)
    → Fits ts us
    → all (λ u. not (is_empty u.name)) us ≡ true
    → map (hw_listed names ts) (map as_hw us) ≡ map (listed names) us
unfolding all
map-Fits names ts [] f h = refl
map-Fits names ts (u ∷ us) f h =
    rw
      (
        hw_listed-as_hw names ts u f.0 (ground (arith, h)),
        map-Fits names ts us f.1 (ground (arith, h)),
      )
      refl

-- A hardware reader that answers the users and the fingerprints of a simulated reader, whose PINs and uids
-- are distinct and whose users have names, gets the list that the simulated reader gets.
pub hw_listed-templates_of :
    (names : Dict Text) (us : List SimUser)
    → AreDistinct us
    → all (λ u. not (is_empty u.name)) us ≡ true
    → map (hw_listed names (templates_of us)) (map as_hw us) ≡ map (listed names) us
hw_listed-templates_of names us d h = map-Fits names _ us (templates_of-Fits us d) h
